-- ===== src/DependencyGate/Advisories.antt =====
-- `advisories` in gate.mjs, from a report with the fields that npm documents; a field that is not
-- there is `none`.
pub mod Laws
use Prim.Native.String.{[], ◌∷◌}
use Prim.Native.String
use platform_engineering_lab.Prelude.{
  ℕ, String, Bool, true, false, List, Option, none, some, Result, ok, throw, ◌==◌, eqb, code,
  if◌then◌else◌, map,
}

pub record AuditError : Type 0 where
  pub summary : Option String
  pub code : Option String

-- An entry of `via`: the name of a package, or an advisory; `source` is String(via.source).
pub data Via : Type 0 where
  package_name : String → Via
  advisory : (url : Option String) (source severity : String) (title : Option String) → Via

-- `unfixable` says that fixAvailable is `false`.
pub record Vulnerability : Type 0 where
  pub via : Option (List Via)
  pub unfixable : Bool

pub record Audit : Type 0 where
  pub error : Option AuditError
  pub message : Option String
  pub vulnerabilities : Option (List (String × Vulnerability))
  -- metadata.vulnerabilities.total
  pub metadata : Option (Option ℕ)

pub data GateError : Type 0 where
  audit_failed : (reason : String) → GateError
  not_a_report : GateError
  unreadable : (message : String) → GateError

pub record Advisory : Type 0 where
  pub id : String
  pub pkg : String
  pub severity : String
  pub title : String
  pub fixable : Bool

-- a || b, of texts that may be missing; an empty text counts as missing.
abbrev pub or_else : Option String → String → String
or_else none b = b
or_else (some a) b = if a == "" then b else a

abbrev pub or_blank : Option String → String
or_blank none = ""
or_blank (some s) = s

unfoldable pub failure_reason : Option String → AuditError → String
failure_reason message e = or_else message (or_else e.summary (or_else e.code "unknown error"))

-- What stands behind the last slash of `before ++ s`, where nothing in `before` is a slash.
abbrev pub segment_from : String → String → String
segment_from before [] = before
segment_from before (c ∷ s) =
    let fresh = segment_from "" s in
    let on = segment_from (String.◌++◌ before (c ∷ [])) s in if eqb (code c) b'/' then fresh else on

-- url.split('/').pop()
unfoldable pub last_segment : String → String
last_segment url = segment_from "" url

-- via.url?.split('/').pop() ?? String(via.source)
abbrev pub id_of : Option String → String → String
id_of none source = source
id_of (some url) source = last_segment url

abbrev pub Rows : Type 0
Rows = List (String × Advisory)

-- found.set(key, row): a key that is there keeps its place.
abbrev pub set_row : String → Advisory → Rows → Rows
set_row key row List.[] = List.◌∷◌ (key, row) List.[]
set_row key row (List.◌∷◌ (k, r) rows) =
    let rest = set_row key row rows in
    if k == key then List.◌∷◌ (k, row) rows else List.◌∷◌ (k, r) rest

abbrev pub row_of : String → Bool → Option String → String → String → Option String → Advisory
row_of pkg unfixable url source severity title = record {
  id = id_of url source;
  pkg = pkg;
  severity = severity;
  title = or_blank title;
  fixable = if unfixable then false else true;
}

-- `${id} ${pkg}`
abbrev pub key_of : Advisory → String
key_of a = String.◌++◌ a.id (String.◌++◌ " " a.pkg)

unfoldable pub add_via : String → Bool → Via → Rows → Rows
add_via pkg unfixable (package_name name) rows = rows
add_via pkg unfixable (advisory url source severity title) rows =
    let row = row_of pkg unfixable url source severity title in set_row (key_of row) row rows

unfoldable pub add_all : String → Bool → List Via → Rows → Rows
add_all pkg unfixable List.[] rows = rows
add_all pkg unfixable (List.◌∷◌ via vias) rows =
    add_all pkg unfixable vias (add_via pkg unfixable via rows)

abbrev pub or_none : Option (List Via) → List Via
or_none none = List.[]
or_none (some vias) = vias

-- The outer loop.
unfoldable pub collect : List (String × Vulnerability) → Rows → Rows
collect List.[] rows = rows
collect (List.◌∷◌ (pkg, v) vs) rows = collect vs (add_all pkg v.unfixable (or_none v.via) rows)

abbrev pub of_report :
    Option (List (String × Vulnerability)) → Option (Option ℕ) → Result GateError (List Advisory)
of_report none metadata = throw not_a_report
of_report (some vs) none = throw not_a_report
of_report (some vs) (some metadata) = ok (map (λ r. r.1) (collect vs List.[]))

abbrev pub of_error : Option AuditError → Audit → Result GateError (List Advisory)
of_error (some e) audit = throw (audit_failed (failure_reason audit.message e))
of_error none audit = of_report audit.vulnerabilities audit.metadata

unfoldable pub advisories : Audit → Result GateError (List Advisory)
advisories audit = of_error audit.error audit
