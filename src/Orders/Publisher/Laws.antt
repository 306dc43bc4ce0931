-- ===== src/Orders/Publisher/Laws.antt =====
-- One opening at a time, and what a lost channel leaves behind.
use platform_engineering_lab.Prelude.{
  ℕ, ◌≤◌, ◌≡◌, ◌≢◌, ap, ◌∙◌, any, ◌⊎◌, inl, inr, refl, Bool, true, false, List, [], ◌∷◌, none, some,
  eqb, arith, Bool-cases, Option-cases,
}
use platform_engineering_lab.Orders.Publisher.{
  Publisher, Step, asks, opens, fails, loses_channel, loses_conn, Reachable, at_start, after,
  get_channel, opened, open_failed, channel_closed, conn_closed, on_module_destroy, without,
  promised,
}

-- `opening` is set exactly while one call of `open` runs, and then there is no channel.
pub record IsSingle (s : Publisher) : Type 0 where
  pub one :
      ((s.opening ≡ true) × (s.running ≡ 1) × (s.channel ≡ none))
      ⊎ ((s.opening ≡ false) × (s.running ≡ 0))

one_at_most : (s : Publisher) → IsSingle s → s.running ≤ 1
one_at_most s i = elim i.one [ inl (o, r, c) ↦ omega (arith, r) | inr (o, r) ↦ omega (arith, r) ]

step-IsSingle : {s t : Publisher} → IsSingle s → Step s t → IsSingle t
unfolding get_channel opened open_failed channel_closed conn_closed
step-IsSingle i (asks s) = record {
  one = elim i.one [
    | inl (o, r, c) ↦ inl (ground arith, ground arith, ground arith)
    | inr (o, r) ↦ elim (Option-cases s.channel) [
      | inl absent ↦ inl (ground arith, ground arith, ground arith)
      | inr (d, there) ↦ inr (ground arith, ground arith)
    ]
  ];
}
step-IsSingle i (opens s c n h) = record { one = inr (refl, ground (arith, one_at_most s i)) }
step-IsSingle i (fails s n h) = record { one = inr (refl, ground (arith, one_at_most s i)) }
step-IsSingle i (loses_channel s c) = record {
  one = elim i.one [ inl (o, r, e) ↦ inl (o, r, ground arith) | inr (o, r) ↦ inr (o, r) ];
}
step-IsSingle i (loses_conn s c) = record {
  one = elim i.one [ inl (o, r, e) ↦ inl (o, r, refl) | inr (o, r) ↦ inr (o, r) ];
}

all-IsSingle : {s : Publisher} → Reachable s → IsSingle s
all-IsSingle at_start = record { one = inr (refl, refl) }
all-IsSingle (after r step) = step-IsSingle (all-IsSingle r) step

-- Whatever happens, at most one opening runs at a time, which all publications share, and none while
-- there is a channel.
pub reachable-IsSingle : (s : Publisher) → Reachable s → IsSingle s
reachable-IsSingle s r = all-IsSingle r

abbrev pub is_up : ℕ → List ℕ → Bool
is_up c = any (λ d. eqb d c)

stays_up : (c d : ℕ) (ds : List ℕ) → c ≢ d → is_up c ds ≡ true → is_up c (without d ds) ≡ true
stays_up c d [] other h = cc
stays_up c d (e ∷ ds) other h = elim (Bool-cases (eqb e c)) [
  | inl here ↦ ground (arith, here)
  | inr there ↦ let rest = stays_up c d ds other (ground arith) in ground (arith, rest)
]

still_up : (c d : ℕ) (ds : List ℕ) → is_up c ds ≡ true → is_up c (d ∷ ds) ≡ true
still_up c d ds h = ground (arith, h)

get_channel-up : (s : Publisher) (c : ℕ) → (get_channel (channel_closed c s)).1.up ≡ s.up
unfolding get_channel channel_closed
get_channel-up s c = ground arith

asks-again :
    (s : Publisher) (c : ℕ) → s.channel ≡ some c → (get_channel (channel_closed c s)).0 ≡ promised
unfolding get_channel channel_closed
asks-again s c has = ground arith

-- Where only the channel of a connection is closed, the next publication opens another connection,
-- which replaces the first without closing it: that one is still up after the service has shut down.
pub channel_closed-leaks :
    (s : Publisher) (c d : ℕ)
    → c ≢ d
    → s.channel ≡ some c
    → is_up c s.up ≡ true
    → ((get_channel (channel_closed c s)).0 ≡ promised)
      × (is_up c (on_module_destroy (opened d (get_channel (channel_closed c s)).1)).up ≡ true)
unfolding opened on_module_destroy
channel_closed-leaks s c d other has up =
    let x = (get_channel (channel_closed c s)).1 in
    let kept : is_up c x.up ≡ true = ap (is_up c) (get_channel-up s c) ∙ up in
    (asks-again s c has, stays_up c d (d ∷ x.up) other (still_up c d x.up kept))
