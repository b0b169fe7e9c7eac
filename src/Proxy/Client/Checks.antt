-- ===== src/Proxy/Client/Checks.antt =====
-- When the client's parameters (pkg/client/proxy*.go) pass their checks.
use longhorn_instance_manage.Base.{
  ℤ, pos, Text, ◌≡◌, ◌↔◌, inl, inr, refl, Bool-cases, ◌≢◌, negsuc, Bool, true, false, Option, none,
  some, List, [], ◌∷◌, ◌++◌, Dict, is_empty, text_eq, codes, if◌then◌else◌, Error,
}
use longhorn_instance_manage.Strings.{itoa, format}
use longhorn_instance_manage.Strings.Decimal.{format-ne-nil}
use longhorn_instance_manage.Proxy.Client.{
  Target, ClientLibrary, common, with_frontend_name, validate_proxy_method_parameters,
}
use longhorn_instance_manage.Proxy.Client.Calls.{check_labels, first_error}
use longhorn_instance_manage.Proxy.Client.Expected.{AllGiven, AllLabels, GivenWhen}

pub ne_nil-given : (s : Text) → s ≢ [] → is_empty s ≡ false
ne_nil-given [] h = absurd (h refl)
ne_nil-given (c ∷ s) h = refl

pub itoa-given : (a : ℤ) → is_empty (itoa a) ≡ false
unfolding itoa
itoa-given (pos n) = ne_nil-given (format n) (format-ne-nil n)
itoa-given (negsuc n) = refl

pub flag-given : (b : Bool) → is_empty (codes (if b then "true" else "false")) ≡ false
flag-given true = refl
flag-given false = refl

pub validate-AllGiven :
    (inputs : List Text) → (validate_proxy_method_parameters inputs ≡ none) ↔ AllGiven inputs
unfolding validate_proxy_method_parameters
validate-AllGiven [] = (λ h. tt, λ h. refl)
validate-AllGiven (value ∷ rest) =
    let (one, other) = validate-AllGiven rest in
    elim (Bool-cases (is_empty value)) [
      | inl e ↦ rw e (λ h. cc, λ h. cc h.0)
      | inr e ↦ rw e (λ h. (refl, one h), λ h. other h.1)
    ]

pub check_labels-AllLabels :
    (lib : ClientLibrary) (labels : Dict Text)
    → (check_labels lib labels ≡ none) ↔ AllLabels lib labels
unfolding check_labels
check_labels-AllLabels lib [] = (λ h. tt, λ h. refl)
check_labels-AllLabels lib ((key, value) ∷ labels) =
    let (one, other) = check_labels-AllLabels lib labels in
    elim (Bool-cases (lib.is_qualified_name key)) [
      | inl e ↦ elim (Bool-cases (is_empty value)) [
        | inl f ↦ rw (e, f) (λ h. cc, λ h. cc h.1)
        | inr f ↦ rw (e, f) (λ h. (refl, refl, one h), λ h. other h.2)
      ]
      | inr e ↦ rw e (λ h. cc, λ h. cc h.0)
    ]

pub first_error-none :
    {S S' : Type 0} (e f : Option Error)
    → (e ≡ none) ↔ S
    → (f ≡ none) ↔ S'
    → (first_error e f ≡ none) ↔ (S × S')
first_error-none none f (one, other) (one', other') = (λ h. (one refl, one' h), λ h. other' h.1)
first_error-none (some e) f (one, other) (one', other') = (λ h. cc, λ h. cc (other h.0))

-- Both the address and the name of a replica may not be empty, and a snapshot to revert to is not the head.
pub refused_if-none : (b : Bool) (e : Error) → ((if b then some e else none) ≡ none) ↔ (b ≡ false)
refused_if-none true e = (λ h. cc, λ h. cc)
refused_if-none false e = (λ h. refl, λ h. refl)

module _ (t : Target) where
  abbrev pub Plain : List Text → Type 0
  Plain given =
      (is_empty t.service_address ≡ false)
      × (is_empty t.engine_name ≡ false)
      × (is_empty t.volume_name ≡ false)
      × Unit {0}
      × AllGiven given
      × Unit {0}

  abbrev pub Front : List Text → Type 0 → Type 0
  Front given A =
      (is_empty t.service_address ≡ false)
      × (is_empty t.engine_name ≡ false)
      × (is_empty t.volume_name ≡ false)
      × GivenWhen (text_eq t.data_engine (codes "v2")) t.engine_frontend_name
      × AllGiven given
      × A

  pub common-given :
      (given : List Text) (F A : Type 0)
      → (AllGiven (given ++ common t) × F × A) ↔ (
          (is_empty t.service_address ≡ false)
          × (is_empty t.engine_name ≡ false)
          × (is_empty t.volume_name ≡ false)
          × F
          × AllGiven given
          × A)
  common-given [] F A = (
    λ ((e, (v, (a, u))), f, x). (a, e, v, f, tt, x),
    λ (a, e, v, f, u, x). ((e, (v, (a, tt))), f, x),
  )
  common-given (value ∷ given) F A =
      let (one, other) = common-given given F A in
      (
        λ ((g, all), f, x).
            let (a, e, v, f', all', x') = one (all, f, x) in (a, e, v, f', (g, all'), x'),
        λ (a, e, v, f, (g, all), x).
            let (all', f', x') = other (a, e, v, f, all, x) in ((g, all'), f', x'),
      )

  pub common-AllGiven :
      (given : List Text)
      → (validate_proxy_method_parameters (given ++ common t) ≡ none) ↔ Plain given
  common-AllGiven given =
      let (one, other) = validate-AllGiven (given ++ common t) in
      let (on, off) = common-given given (Unit {0}) (Unit {0}) in
      (λ h. on (one h, tt, tt), λ h. other (off h).0)

  -- The frontend's name comes first where it is asked for.
  pub with_frontend_name-none :
      (inputs : List Text)
      → (validate_proxy_method_parameters (with_frontend_name t inputs) ≡ none)
        ↔ (AllGiven inputs × GivenWhen (text_eq t.data_engine (codes "v2")) t.engine_frontend_name)
  unfolding with_frontend_name
  with_frontend_name-none inputs = elim (Bool-cases (text_eq t.data_engine (codes "v2"))) [
    | inl e ↦
        let (one, other) = validate-AllGiven (t.engine_frontend_name ∷ inputs) in
        rw e (λ h. ((one h).1, (one h).0), λ h. other (h.1, h.0))
    | inr e ↦ let (one, other) = validate-AllGiven inputs in rw e (λ h. (one h, tt), λ h. other h.0)
  ]

  pub front-AllGiven :
      {A : Type 0} (given : List Text) (e : Option Error)
      → (e ≡ none) ↔ A
      → (first_error (validate_proxy_method_parameters (with_frontend_name t (given ++ common t))) e
          ≡ none)
        ↔ Front given A
  front-AllGiven {A} given e allowed =
      let (one, other) =
        first_error-none
          (validate_proxy_method_parameters (with_frontend_name t (given ++ common t))) e
          (with_frontend_name-none (given ++ common t)) allowed in
      let F = GivenWhen (text_eq t.data_engine (codes "v2")) t.engine_frontend_name in
      let (on, off) = common-given given F A in
      (
        λ h. let ((all, f), a) = one h in on (all, f, a),
        λ h. let (all, f, a) = off h in other ((all, f), a),
      )

  pub front_alone-AllGiven :
      (given : List Text)
      → (validate_proxy_method_parameters (with_frontend_name t (given ++ common t)) ≡ none)
        ↔ Front given (Unit {0})
  front_alone-AllGiven given =
      let (one, other) = with_frontend_name-none (given ++ common t) in
      let F = GivenWhen (text_eq t.data_engine (codes "v2")) t.engine_frontend_name in
      let (on, off) = common-given given F (Unit {0}) in
      (λ h. let (all, f) = one h in on (all, f, tt), λ h. let (all, f, u) = off h in other (all, f))

  pub printed-AllGiven :
      (value : Text)
      → is_empty value ≡ false
      → (validate_proxy_method_parameters (value ∷ common t) ≡ none) ↔ Plain []
  printed-AllGiven value given =
      let (one, other) = common-AllGiven [] in
      let (first, last) = validate-AllGiven (value ∷ common t) in
      let (on, off) = validate-AllGiven (common t) in
      (λ h. one (off (first h).1), λ h. last (given, on (other h)))
