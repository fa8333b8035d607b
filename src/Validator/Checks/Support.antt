-- ===== src/Validator/Checks/Support.antt =====
-- src/conformance/validator/checks.py: when CORE-HELLO-002 passes.
use conformance.Prelude.{
  String, ◌≡◌, refl, sym, ap, ◌∙◌, ◌↔◌, inl, inr, Bool, true, false, not, ◌&&◌, some, List, [], ◌∷◌,
  ◌++◌, map, arith, Bool-cases, Option-cases, is_empty, filter, All, All-imp, clash,
}
use Prim.Native.String.{compare}
use Prim.Native.Nat.{Ordering}
use conformance.Json.{Fields, get}
use conformance.Validator.Findings.{pass}
use conformance.Validator.Record.{RecordedFrame, ConnectionRecord, payload_or_empty}
use conformance.Validator.Texts.{insert, sorted}
use conformance.Validator.Checks.{client_hello, roles, is_one_of, keys}
use conformance.Validator.Checks.Order.{Gives}
use conformance.Validator.Checks.Hello.{
  support_object_roles, is_object, support_key, supported_role, is_unlisted, missing_support,
  unlisted_support, support_problems, check_hello_support_objects,
}

module _ (P : String → Type 0) where
  insert-All_iff : (s : String) (ss : List String) → All P (insert s ss) ↔ All P (s ∷ ss)
  insert-All_iff s [] = (λ h. h, λ h. h)
  insert-All_iff s (t ∷ ts) =
      let rest = insert-All_iff s ts in
      by_order (compare s t)
        (λ h. let k = rest.0 h.1 in (k.0, (h.0, k.1)), λ h. (h.1.0, rest.1 (h.0, h.1.1)))
    where
      by_order :
          (o : Ordering)
          → (All P (t ∷ insert s ts) ↔ All P (s ∷ t ∷ ts))
          → All P (elim o [ Ordering.gt ↦ t ∷ insert s ts | _ ↦ s ∷ t ∷ ts ]) ↔ All P (s ∷ t ∷ ts)
      by_order Ordering.gt moved = moved
      by_order Ordering.eq moved = (λ h. h, λ h. h)
      by_order Ordering.lt moved = (λ h. h, λ h. h)

  sorted-All_iff : (ss : List String) → All P (sorted ss) ↔ All P ss
  sorted-All_iff [] = (λ h. h, λ h. h)
  sorted-All_iff (s ∷ ss) =
      let rest = sorted-All_iff ss in
      let first = insert-All_iff s (sorted ss) in
      (λ h. let k = first.0 h in (k.0, rest.0 k.1), λ h. first.1 (h.0, rest.1 h.1))

module _ (hello : Fields) where
  -- Each listed role version that requires a support object has one, and each support object of a
  -- role version is one of a listed role version.
  pub record IsSupported : Type 0 where
    pub objects :
        All
          (λ role.
            is_one_of (roles hello) role ≡ true → is_object (get (support_key role) hello) ≡ true)
          support_object_roles
    pub listed :
        All
          (λ k.
            (role : String) → supported_role k ≡ some role → is_one_of (roles hello) role ≡ true)
          (keys hello)

module _ {A B : Type 0} (f : A → B) where
  map-empty_iff : (xs : List A) → (is_empty (map f xs) ≡ true) ↔ (xs ≡ [])
  map-empty_iff [] = (λ h. refl, λ h. refl)
  map-empty_iff (x ∷ xs) = (λ h. cc, λ h. cc)

append-empty_iff :
    {A : Type 0} (xs ys : List A)
    → (is_empty (xs ++ ys) ≡ true) ↔ ((is_empty xs ≡ true) × (is_empty ys ≡ true))
append-empty_iff [] ys = (λ h. (refl, h), λ h. h.1)
append-empty_iff (x ∷ xs) ys = (λ h. cc, λ h. cc (h.0))

filter-nil_iff :
    {A : Type 0} (p : A → Bool) (xs : List A) → (filter p xs ≡ []) ↔ All (λ x. p x ≡ false) xs
filter-nil_iff p [] = (λ h. tt, λ h. refl)
filter-nil_iff p (x ∷ xs) =
    let rest = filter-nil_iff p xs in
    elim (Bool-cases (p x)) [
      | inl y ↦ rw y (λ h. cc, λ h. cc (h.0))
      | inr n ↦ rw n (λ h. (refl, rest.0 h), λ h. rest.1 h.1)
    ]

module _ (hello : Fields) where
  lacks-object_iff :
      (role : String)
      → ((is_one_of (roles hello) role && not (is_object (get (support_key role) hello))) ≡ false)
        ↔ (is_one_of (roles hello) role ≡ true → is_object (get (support_key role) hello) ≡ true)
  lacks-object_iff role = elim (Bool-cases (is_one_of (roles hello) role)) [
    | inr n ↦ rw n (λ h k. cc, λ h. refl)
    | inl y ↦ elim (Bool-cases (is_object (get (support_key role) hello))) [
      | inl z ↦ rw (y, z) (λ h k. refl, λ h. refl)
      | inr m ↦ rw (y, m) (λ h. cc, λ h. cc (h refl))
    ]
  ]

  is_unlisted-false_iff :
      (k : String)
      → (is_unlisted (roles hello) k ≡ false)
        ↔ ((role : String) → supported_role k ≡ some role → is_one_of (roles hello) role ≡ true)
  is_unlisted-false_iff k = elim (Option-cases (supported_role k)) [
    | inl nothing ↦ rw (nothing, is_unlisted) (λ h role e. cc, λ h. refl)
    | inr (name, found) ↦
        rw (found, is_unlisted)
          (
            λ h role e. let same : name ≡ role = cc (e) in rw (sym same) (ground (arith, h)),
            λ h. rw (h name refl) refl,
          )
  ]

  missing_support-nil_iff :
      (missing_support hello ≡ [])
      ↔ All
          (λ role.
            is_one_of (roles hello) role ≡ true → is_object (get (support_key role) hello) ≡ true)
          support_object_roles
  unfolding missing_support
  missing_support-nil_iff =
      let fine =
        filter-nil_iff
          (λ role. is_one_of (roles hello) role && not (is_object (get (support_key role) hello)))
          support_object_roles in
      (
        λ h. All-imp support_object_roles (λ role k. (lacks-object_iff role).0 k) (fine.0 h),
        λ h. fine.1 (All-imp support_object_roles (λ role k. (lacks-object_iff role).1 k) h),
      )

  unlisted_support-nil_iff :
      (unlisted_support hello ≡ [])
      ↔ All
          (λ k.
            (role : String) → supported_role k ≡ some role → is_one_of (roles hello) role ≡ true)
          (keys hello)
  unfolding unlisted_support
  unlisted_support-nil_iff =
      let fine = filter-nil_iff (is_unlisted (roles hello)) (sorted (keys hello)) in
      let all_keys = sorted-All_iff (λ k. is_unlisted (roles hello) k ≡ false) (keys hello) in
      (
        λ h. All-imp (keys hello) (λ k z. (is_unlisted-false_iff k).0 z) (all_keys.0 (fine.0 h)),
        λ h. fine.1 (all_keys.1 (All-imp (keys hello) (λ k z. (is_unlisted-false_iff k).1 z) h)),
      )

  support_problems-empty_iff : (is_empty (support_problems hello) ≡ true) ↔ IsSupported hello
  unfolding support_problems
  support_problems-empty_iff =
      let both = append-empty_iff _ _ in
      let one = map-empty_iff _ (missing_support hello) in
      let two = map-empty_iff _ (unlisted_support hello) in
      (
        λ h.
            let k = both.0 h in
            record {
              objects = missing_support-nil_iff.0 (one.0 k.0);
              listed = unlisted_support-nil_iff.0 (two.0 k.1);
            },
        λ h. both.1 (
          one.1 (missing_support-nil_iff.1 h.objects),
          two.1 (unlisted_support-nil_iff.1 h.listed),
        ),
      )

module _ (r : ConnectionRecord) where
  -- CORE-HELLO-002 passes exactly when the client sent a client/hello in which each listed role
  -- version that requires a support object has one, and each support object of a role version is
  -- one of a listed role version.
  pub check_hello_support_objects-pass_iff : Gives pass (check_hello_support_objects r) ↔ (
      (hello : RecordedFrame) × (client_hello r ≡ some hello)
      × IsSupported (payload_or_empty hello))
  unfolding check_hello_support_objects
  check_hello_support_objects-pass_iff = elim (Option-cases (client_hello r)) [
    | inl nothing ↦ rw (nothing, check_hello_support_objects) (λ h. cc, λ h. cc (h.1))
    | inr (f, found) ↦
        let fine = support_problems-empty_iff (payload_or_empty f) in
        elim (Bool-cases (is_empty (support_problems (payload_or_empty f)))) [
          | inl y ↦ rw (found, y, check_hello_support_objects) (λ h. (f, refl, fine.0 y), λ h. refl)
          | inr n ↦
              rw (found, n, check_hello_support_objects)
                (
                  λ h. cc,
                  λ h.
                      let same : f ≡ h.0 = cc (h.1) in
                      let k = (support_problems-empty_iff (payload_or_empty h.0)).1 h.2 in
                      absurd (
                        clash (ap (λ z. is_empty (support_problems (payload_or_empty z))) same ∙ k)
                          n),
                )
        ]
  ]
