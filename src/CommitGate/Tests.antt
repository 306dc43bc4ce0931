-- ===== src/CommitGate/Tests.antt =====
-- The subjects of gate.test.mjs.
use platform_engineering_lab.Prelude.{◌≡◌, ◌↔◌, refl, String, List, [], ◌∷◌, Result, ok, throw, All}
use platform_engineering_lab.Js.Text.{strip_prefix}
use platform_engineering_lab.Js.Lines.{split_lines, trim_start, trim_end}
use platform_engineering_lab.CommitGate.{
  is_line, is_described, is_marked, scope_end, scope_of, is_scoped, is_conventional, has_quote,
  is_exempt, invalid_subjects, main, gate,
}
use platform_engineering_lab.CommitGate.Laws.{Conforms, gate-Conforms_iff}

abbrev accepted : List String
accepted =
    "feat(order-service): publish order.created to RabbitMQ"
    ∷ "fix: escape the dot in the log pattern (#30)" ∷ "feat!: drop the legacy /v0 routes"
    ∷ "Revert \"ci: gate the service pipelines on a SonarQube quality gate (#2)\""
    ∷ "Merge pull request #12 from user/branch" ∷ "  " ∷ []

abbrev refused : List String
refused = "update stuff" ∷ "unknown: add a thing" ∷ "fix:" ∷ "fix:no space" ∷ []

linting : Unit {0}
unfolding gate main invalid_subjects is_exempt has_quote is_conventional is_scoped scope_of
    scope_end is_marked is_described is_line strip_prefix split_lines trim_start trim_end
linting = tt

accepts_them : invalid_subjects accepted ≡ []
unfolding linting
accepts_them = refl

refuses_them : invalid_subjects refused ≡ refused
unfolding linting
refuses_them = refl

fails_on_one : gate (ok "fix: ok (#1)\nupdate stuff\n") ≡ 1
unfolding linting
fails_on_one = refl

passes_without_input : gate (ok "") ≡ 0
unfolding linting
passes_without_input = refl

fails_unread : gate (throw "EAGAIN") ≡ 1
unfolding linting
fails_unread = refl

abbrev two_subjects : Result String String
two_subjects = ok "fix: ok (#1)\nfeat(x): ok\n"

gate-Conforms_iff_example :
    (gate two_subjects ≡ 0)
    ↔ ((text : String) × (two_subjects ≡ ok text) × All Conforms (split_lines text))
gate-Conforms_iff_example = gate-Conforms_iff two_subjects
