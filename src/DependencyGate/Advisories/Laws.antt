-- ===== src/DependencyGate/Advisories/Laws.antt =====
-- No advisory of the report is lost.

use platform_engineering_lab.Prelude.{
  ◌≡◌, ◌⊎◌, inl, inr, refl, sym, subst, ◌∙◌, String, Bool, List, [], ◌∷◌, Option, some, ok, ◌==◌,
  eq_iff, map, IsIn, Bool-cases, arith,
}
use platform_engineering_lab.DependencyGate.Advisories.{
  Via, package_name, advisory, Vulnerability, Audit, Advisory, Rows, set_row, row_of, key_of,
  add_via, add_all, or_none, collect, advisories,
}

-- A row of the key, which is the key of its advisory.
abbrev HasRow : String → Rows → Type 0
HasRow k [] = ⊥
HasRow k ((j, a) ∷ rows) = ((j ≡ k) × (key_of a ≡ k)) ⊎ HasRow k rows

HasRow-set_row :
    (k : String) (a : Advisory) (rows : Rows) → key_of a ≡ k → HasRow k (set_row k a rows)
HasRow-set_row k a [] e = inl (refl, e)
HasRow-set_row k a ((j, b) ∷ rows) e = elim (Bool-cases (j == k)) [
  | inl same ↦ rw same (inl ((eq_iff j k).0 same, e))
  | inr other ↦ rw other (inr (HasRow-set_row k a rows e))
]

set_row-keeps :
    (k i : String) (a : Advisory) (rows : Rows)
    → key_of a ≡ i
    → HasRow k rows
    → HasRow k (set_row i a rows)
set_row-keeps k i a [] e h = absurd h
set_row-keeps k i a ((j, b) ∷ rows) e (inl (here, keyed)) = elim (Bool-cases (j == i)) [
  | inl same ↦ rw same (inl (here, e ∙ sym ((eq_iff j i).0 same) ∙ here))
  | inr other ↦ rw other (inl (here, keyed))
]
set_row-keeps k i a ((j, b) ∷ rows) e (inr later) = elim (Bool-cases (j == i)) [
  | inl same ↦ rw same (inr later)
  | inr other ↦ rw other (inr (set_row-keeps k i a rows e later))
]

add_via-keeps :
    (k pkg : String) (unfixable : Bool) (via : Via) (rows : Rows)
    → HasRow k rows
    → HasRow k (add_via pkg unfixable via rows)
unfolding add_via
add_via-keeps k pkg unfixable (package_name name) rows h = h
add_via-keeps k pkg unfixable (advisory url source severity title) rows h =
    let a = row_of pkg unfixable url source severity title in
    set_row-keeps k (key_of a) a rows refl h

add_all-keeps :
    (k pkg : String) (unfixable : Bool) (vias : List Via) (rows : Rows)
    → HasRow k rows
    → HasRow k (add_all pkg unfixable vias rows)
unfolding add_all
add_all-keeps k pkg unfixable [] rows h = h
add_all-keeps k pkg unfixable (via ∷ vias) rows h =
    add_all-keeps k pkg unfixable vias (add_via pkg unfixable via rows)
      (add_via-keeps k pkg unfixable via rows h)

collect-keeps :
    (k : String) (vs : List (String × Vulnerability)) (rows : Rows)
    → HasRow k rows
    → HasRow k (collect vs rows)
unfolding collect
collect-keeps k [] rows h = h
collect-keeps k ((pkg, v) ∷ vs) rows h =
    collect-keeps k vs (add_all pkg v.unfixable (or_none v.via) rows)
      (add_all-keeps k pkg v.unfixable (or_none v.via) rows h)

module _ (url : Option String) (source severity : String) (title : Option String) where
  abbrev via_key : String → Bool → String
  via_key pkg unfixable = key_of (row_of pkg unfixable url source severity title)

  HasRow-add_all :
      (pkg : String) (unfixable : Bool) (vias : List Via) (rows : Rows)
      → IsIn (advisory url source severity title) vias
      → HasRow (via_key pkg unfixable) (add_all pkg unfixable vias rows)
  unfolding add_all add_via
  HasRow-add_all pkg unfixable [] rows w = absurd w
  HasRow-add_all pkg unfixable (via ∷ vias) rows (inl same) =
      let a = row_of pkg unfixable url source severity title in
      add_all-keeps (key_of a) pkg unfixable vias (add_via pkg unfixable via rows) (
        subst (λ x. HasRow (key_of a) (add_via pkg unfixable x rows)) (sym same)
          (HasRow-set_row (key_of a) a rows refl))
  HasRow-add_all pkg unfixable (via ∷ vias) rows (inr later) =
      HasRow-add_all pkg unfixable vias (add_via pkg unfixable via rows) later

  HasRow-collect :
      (pkg : String) (v : Vulnerability) (vs : List (String × Vulnerability)) (rows : Rows)
      → IsIn (pkg, v) vs
      → IsIn (advisory url source severity title) (or_none v.via)
      → HasRow (via_key pkg v.unfixable) (collect vs rows)
  unfolding collect
  HasRow-collect pkg v [] rows w x = absurd w
  HasRow-collect pkg v ((p, u) ∷ vs) rows (inl same) x =
      collect-keeps (via_key pkg v.unfixable) vs (add_all p u.unfixable (or_none u.via) rows) (
        subst
          (λ (q : String × Vulnerability).
            HasRow (via_key pkg v.unfixable) (add_all q.0 q.1.unfixable (or_none q.1.via) rows))
          (sym same) (HasRow-add_all pkg v.unfixable (or_none v.via) rows x))
  HasRow-collect pkg v ((p, u) ∷ vs) rows (inr later) x =
      HasRow-collect pkg v vs (add_all p u.unfixable (or_none u.via) rows) later x

row_in :
    (k : String) (rows : Rows)
    → HasRow k rows
    → (a : Advisory) × IsIn a (map (λ (r : String × Advisory). r.1) rows) × (key_of a ≡ k)
row_in k [] h = absurd h
row_in k ((j, a) ∷ rows) (inl (here, keyed)) = (a, inl refl, keyed)
row_in k ((j, a) ∷ rows) (inr later) =
    let (b, here, keyed) = row_in k rows later in (b, inr here, keyed)

-- Every advisory that a package of the report has in its `via` is found, under its id and its package.
pub advisories_complete :
    (audit : Audit) (found : List Advisory) (vs : List (String × Vulnerability)) (pkg : String)
    (v : Vulnerability) (url : Option String) (source severity : String) (title : Option String)
    → advisories audit ≡ ok found
    → audit.vulnerabilities ≡ some vs
    → IsIn (pkg, v) vs
    → IsIn (advisory url source severity title) (or_none v.via)
    → (a : Advisory) × IsIn a found
      × (key_of a ≡ key_of (row_of pkg v.unfixable url source severity title))
unfolding advisories
advisories_complete audit found vs pkg v url source severity title h has w x =
    let same : map (λ (r : String × Advisory). r.1) (collect vs []) ≡ found = ground arith in
    rw same at (
      row_in (via_key url source severity title pkg v.unfixable) (collect vs [])
        (HasRow-collect url source severity title pkg v vs [] w x))
