-- ===== src/DependencyGate/Exceptions/Laws.antt =====
-- Which exceptions are in force.
use platform_engineering_lab.Prelude.{
  ℕ, ◌+◌, ◌*◌, ◌≤◌, ◌≡◌, ◌⊎◌, inl, inr, refl, sym, subst, ap, ◌∙◌, String, Bool, true, false, List,
  [], ◌∷◌, Option, none, some, All, IsIn, arith,
}
use platform_engineering_lab.DependencyGate.Exceptions.{
  ExceptionEntry, Problem, Fault, is_given, is_given_trimmed, has_bad_services, date, check_dates,
  today, day, fault_of, sort_in, check_entries,
}

module _ (date_of : String → Option ℕ) (now : ℕ) where
  -- The entry names an advisory, a package and a reason, lasts 90 days at most, has not expired before
  -- today, and is for all services or for a list of names.
  pub record IsInForce (e : ExceptionEntry) : Type 0 where
    pub id : is_given e.id ≡ true
    pub package_name : is_given e.package_name ≡ true
    pub reason : is_given_trimmed e.reason ≡ true
    pub added : ℕ
    pub expires : ℕ
    pub added_on : date date_of e.added ≡ some added
    pub expires_on : date date_of e.expires ≡ some expires
    pub short : expires ≤ added + 90 * day
    pub current : today now ≤ expires
    pub services : has_bad_services e.services ≡ false

  check_dates-none :
      (a b : Option ℕ) (bad : Bool)
      → check_dates a b now bad ≡ none
      → (added : ℕ) × (expires : ℕ) × (a ≡ some added)
        × (b ≡ some expires)
        × (expires ≤ added + 90 * day)
        × (today now ≤ expires)
        × (bad ≡ false)
  check_dates-none none b bad h = absurd (cc)
  check_dates-none (some added) none bad h = absurd (cc)
  check_dates-none (some added) (some expires) bad h =
      (added, expires, refl, refl, ground arith, ground arith, ground arith)

  pub fault_of-none : (e : ExceptionEntry) → fault_of date_of now e ≡ none → IsInForce e
  unfolding fault_of
  fault_of-none e h =
      let (added, expires, on, until, short, current, good) =
        check_dates-none (date date_of e.added) (date date_of e.expires)
          (has_bad_services e.services) (ground arith) in
      record {
        id = ground arith;
        package_name = ground arith;
        reason = ground arith;
        added = added;
        expires = expires;
        added_on = on;
        expires_on = until;
        short = short;
        current = current;
        services = good;
      }

  pub IsInForce-fault_of : (e : ExceptionEntry) → IsInForce e → fault_of date_of now e ≡ none
  unfolding fault_of
  IsInForce-fault_of e f = ground (
    arith, f.id, f.package_name, f.reason, f.added_on, f.expires_on, f.short, f.current, f.services,
  )

  sort_in-valid :
      (x e : ExceptionEntry) (f : Option Fault) (rest : List ExceptionEntry × List Problem)
      → IsIn e (sort_in x f rest).0
      → ((x ≡ e) × (f ≡ none)) ⊎ IsIn e rest.0
  sort_in-valid x e none rest (inl same) = inl (same, refl)
  sort_in-valid x e none rest (inr later) = inr later
  sort_in-valid x e (some f) rest later = inr later

  -- Only entries of the file without a fault count.
  pub check_entries-valid :
      (es : List ExceptionEntry) (e : ExceptionEntry)
      → IsIn e (check_entries date_of now es).0
      → IsIn e es × (fault_of date_of now e ≡ none)
  unfolding check_entries
  check_entries-valid [] e w = absurd w
  check_entries-valid (x ∷ es) e w =
      elim (sort_in-valid x e (fault_of date_of now x) (check_entries date_of now es) w) [
        | inl (same, fine) ↦ (inl same, ap (fault_of date_of now) (sym same) ∙ fine)
        | inr later ↦ let (h, fine) = check_entries-valid es e later in (inr h, fine)
      ]

  sort_in-here :
      (x : ExceptionEntry) (f : Option Fault) (rest : List ExceptionEntry × List Problem)
      → f ≡ none
      → IsIn x (sort_in x f rest).0
  sort_in-here x none rest h = inl refl
  sort_in-here x (some f) rest h = absurd (cc)

  sort_in-later :
      (x e : ExceptionEntry) (f : Option Fault) (rest : List ExceptionEntry × List Problem)
      → IsIn e rest.0
      → IsIn e (sort_in x f rest).0
  sort_in-later x e none rest w = inr w
  sort_in-later x e (some f) rest w = w

  -- Every entry without a fault counts.
  pub valid-check_entries :
      (es : List ExceptionEntry) (e : ExceptionEntry)
      → IsIn e es
      → fault_of date_of now e ≡ none
      → IsIn e (check_entries date_of now es).0
  unfolding check_entries
  valid-check_entries [] e w fine = absurd w
  valid-check_entries (x ∷ es) e (inl same) fine =
      subst (λ y. IsIn y (sort_in x (fault_of date_of now x) (check_entries date_of now es)).0) same
        (sort_in-here x (fault_of date_of now x) (check_entries date_of now es)
          (ap (fault_of date_of now) same ∙ fine))
  valid-check_entries (x ∷ es) e (inr later) fine =
      sort_in-later x e (fault_of date_of now x) (check_entries date_of now es)
        (valid-check_entries es e later fine)

  sort_in-problems :
      (x : ExceptionEntry) (f : Option Fault) (rest : List ExceptionEntry × List Problem)
      → (sort_in x f rest).1 ≡ []
      → (f ≡ none) × (rest.1 ≡ [])
  sort_in-problems x none rest h = (refl, h)
  sort_in-problems x (some f) rest h = absurd (cc)

  -- Where no problem is reported, every entry is in force, and conversely.
  pub check_entries-problems :
      (es : List ExceptionEntry) → (check_entries date_of now es).1 ≡ [] → All IsInForce es
  unfolding check_entries
  check_entries-problems [] h = tt
  check_entries-problems (x ∷ es) h =
      let (fine, rest) =
        sort_in-problems x (fault_of date_of now x) (check_entries date_of now es) h in
      (fault_of-none x fine, check_entries-problems es rest)

  pub problems-check_entries :
      (es : List ExceptionEntry) → All IsInForce es → (check_entries date_of now es).1 ≡ []
  unfolding check_entries
  problems-check_entries [] h = refl
  problems-check_entries (x ∷ es) (f, fs) =
      rw (IsInForce-fault_of x f) (problems-check_entries es fs)
