-- ===== src/Config.antt =====
-- config/env.ts of the services and auth/auth.config.ts, which each keeps a copy of: what is read
-- from the environment at startup. Number(text) and new URL(text) are parameters: the whole number
-- from 0 on that the text stands for, if it does, and whether the text is a URL.
pub mod Values
pub mod AuthEnv
pub mod GatewayEnv
pub mod OrdersEnv
pub mod UsersEnv
pub mod WorkerEnv
mod Tests
