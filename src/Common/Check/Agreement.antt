-- ===== src/Common/Check/Agreement.antt =====
-- When the check lets the two sides pass.
use asystem_awex.Prelude.{
  ℕ, ◌<◌, ◌≡◌, ◌↔◌, min, max, ◌%◌, refl, sym, ap, ◌∙◌, subst, Bool, true, false, not, ◌||◌, some,
  List, [], ◌∷◌, select, any, Each, arith, inl, inr, Bool-cases, Option-cases, ◌==◌, ==_iff,
  if◌then◌else◌,
}
use asystem_awex.Prelude.Equality.{Text, list_beq, list_beq_iff, list_eq, nat_eq}
use asystem_awex.Prelude.Dict.{Dict, get, has, keys, get_of_has, has-keys, get-missing}
use asystem_awex.Prelude.Result.{ok, guard, ◌>>=◌, >>=-eq-ok, guard-eq-ok, ok-injective}
use asystem_awex.Meta.{ParameterMeta}
use asystem_awex.Common.Keys.{key_mismatch}
use asystem_awex.Common.Check.{
  by_name, complain, tp_size, check_param, find, check_names, check_train_infer_params_meta,
}

-- The two sides of a parameter agree: elements, shape and type are the same, and the number of shards
-- of the first replica of one side, which is not zero, divides that of the other.
pub record Agree (infer train : ParameterMeta) : Type 0 where
  pub numel : infer.global_numel ≡ train.global_numel
  pub shape : infer.global_shape ≡ train.global_shape
  pub dtype : infer.dtype ≡ train.dtype
  pub infer_size : ℕ
  pub train_size : ℕ
  pub infer_first : tp_size infer.replicas ≡ ok infer_size
  pub train_first : tp_size train.replicas ≡ ok train_size
  pub some_shard : 0 < min infer_size train_size
  pub divides : max infer_size train_size % min infer_size train_size ≡ 0

complain-ok : (fine : Bool) → complain true fine ≡ ok tt → fine ≡ true
unfolding complain
complain-ok true h = refl
complain-ok false h = absurd (cc)

complain-fine : (fine : Bool) → fine ≡ true → complain true fine ≡ ok tt
unfolding complain
complain-fine true h = refl
complain-fine false h = absurd (cc)

not_zero : (n : ℕ) → not (n == 0) ≡ true → 0 < n
not_zero n h = ground arith

a_number : (n : ℕ) → 0 < n → (n == 0) ≡ false
a_number n h = ground arith

check_param→Agree :
    (infer train : ParameterMeta) → check_param true infer train ≡ ok tt → Agree infer train
unfolding check_param
check_param→Agree infer train h =
    let (u0, e0, h0) = >>=-eq-ok (complain true (infer.global_numel == train.global_numel)) _ h in
    let (u1, e1, h1) =
      >>=-eq-ok (complain true (list_beq infer.global_shape train.global_shape)) _ h0 in
    let (u2, e2, h2) = >>=-eq-ok (complain true (list_beq infer.dtype train.dtype)) _ h1 in
    let (i, ei, h3) = >>=-eq-ok (tp_size infer.replicas) _ h2 in
    let (t, et, h4) = >>=-eq-ok (tp_size train.replicas) _ h3 in
    let (some_tp, h5) = guard-eq-ok (not (min i t == 0)) _ _ h4 in
    record {
      numel = (==_iff infer.global_numel train.global_numel).0 (complain-ok _ e0);
      shape = (list_beq_iff infer.global_shape train.global_shape).0 (complain-ok _ e1);
      dtype = (list_beq_iff infer.dtype train.dtype).0 (complain-ok _ e2);
      infer_size = i;
      train_size = t;
      infer_first = ei;
      train_first = et;
      some_shard = not_zero (min i t) some_tp;
      divides = (==_iff (max i t % min i t) 0).0 (complain-ok _ h5);
    }

Agree→check_param :
    (infer train : ParameterMeta) → Agree infer train → check_param true infer train ≡ ok tt
unfolding check_param
Agree→check_param infer train a =
    let e0 = complain-fine _ ((==_iff infer.global_numel train.global_numel).1 a.numel) in
    let e1 = complain-fine _ ((list_beq_iff infer.global_shape train.global_shape).1 a.shape) in
    let e2 = complain-fine _ ((list_beq_iff infer.dtype train.dtype).1 a.dtype) in
    let e3 =
      complain-fine _
        ((==_iff (max a.infer_size a.train_size % min a.infer_size a.train_size) 0).1 a.divides) in
    let e4 = a_number (min a.infer_size a.train_size) a.some_shard in
    rw (check_param, e0, e1, e2, a.infer_first, a.train_first, e4, guard) e3

some-same : {A : Type 0} {x y : A} → some x ≡ some y → x ≡ y
some-same h = cc

Each-rest :
    (P : Text → Type 0) (chosen : Bool) (n : Text) (names : List Text)
    → Each P (if chosen then n ∷ names else names)
    → Each P names
Each-rest P true n names h = h.1
Each-rest P false n names h = h

module _ (infer train : Dict Text ParameterMeta) where
  -- A name with metadata on both sides, which agree.
  abbrev Settled : Text → Type 0
  Settled name =
      (i t : ParameterMeta) → get infer name ≡ some i → get train name ≡ some t → Agree i t

  find-ok :
      (d : Dict Text ParameterMeta) (name : Text) (meta : ParameterMeta)
      → find d name ≡ ok meta
      → get d name ≡ some meta
  unfolding find
  find-ok d name meta h = elim (Option-cases (get d name)) [
    | inl t ↦ absurd (cc (rw (find, t) at h))
    | inr (m, t) ↦ let e : ok m ≡ ok meta = rw (find, t) at h in t ∙ ap some (ok-injective e)
  ]

  check_names→Settled :
      (names : List Text) → check_names true infer train names ≡ ok tt → Each Settled names
  unfolding check_names
  check_names→Settled [] h = tt
  check_names→Settled (name ∷ names) h =
      let (i, ei, h0) = >>=-eq-ok (find infer name) _ h in
      let (t, et, h1) = >>=-eq-ok (find train name) _ h0 in
      let (u, e, h2) = >>=-eq-ok (check_param true i t) _ h1 in
      (
        (λ i' t' fi ft.
            let same_i : i ≡ i' = some-same (sym (find-ok infer name i ei) ∙ fi) in
            let same_t : t ≡ t' = some-same (sym (find-ok train name t et) ∙ ft) in
            subst (λ m. Agree m t') same_i (subst (Agree i) same_t (check_param→Agree i t e))),
        check_names→Settled names h2,
      )

  Settled→check_names :
      (names : List Text)
      → Each Settled names
      → Each (λ name. has infer name ≡ true) names
      → Each (λ name. has train name ≡ true) names
      → check_names true infer train names ≡ ok tt
  unfolding check_names find
  Settled→check_names [] a hi ht = refl
  Settled→check_names (name ∷ names) a hi ht =
      let (i, fi) = get_of_has infer name hi.0 in
      let (t, ft) = get_of_has train name ht.0 in
      let fine = Agree→check_param i t (a.0 i t fi ft) in
      rw (check_names, find, fi, ft, fine) (Settled→check_names names a.1 hi.1 ht.1)

  -- A common name is among those that the loop goes through.
  Each-name :
      (P : Text → Type 0) (q : Text → Bool) (names : List Text) (name : Text)
      → any (λ n. list_eq.beq n name) names ≡ true
      → q name ≡ true
      → Each P (select q names)
      → P name
  Each-name P q [] name h k a = absurd (cc)
  Each-name P q (n ∷ names) name h k a = elim (Bool-cases (list_beq n name)) [
    | inl t ↦
        let e = (list_beq_iff n name).0 t in
        let chosen : q n ≡ true = ap q e ∙ k in
        let here = rw (chosen, if◌then◌else◌) at a in subst P e here.0
    | inr t ↦
        Each-name P q names name (rw (t, ◌||◌) at h) k (Each-rest P (q n) n (select q names) a)
  ]

has-found :
    (d : Dict Text ParameterMeta) (name : Text) (meta : ParameterMeta)
    → get d name ≡ some meta
    → has d name ≡ true
has-found d name meta h = elim (Bool-cases (has d name)) [
  | inl t ↦ t
  | inr t ↦ let e = get-missing d name t in absurd (cc)
]

any-keys :
    (d : Dict Text ParameterMeta) (name : Text)
    → any (λ n. list_eq.beq n name) (keys d) ≡ has d name
any-keys [] name = refl
any-keys ((n, meta) ∷ d) name = ap (λ b. list_beq n name || b) (any-keys d name)

Each-select :
    (P : Text → Type 0) (q : Text → Bool) (names : List Text)
    → Each P names
    → Each P (select q names)
Each-select P q [] h = tt
Each-select P q (n ∷ names) h = elim (Bool-cases (q n)) [
  | inl t ↦ rw (t, if◌then◌else◌) (h.0, Each-select P q names h.1)
  | inr t ↦ rw (t, if◌then◌else◌) (Each-select P q names h.1)
]

selected : (q : Text → Bool) (names : List Text) → Each (λ n. q n ≡ true) (select q names)
selected q [] = tt
selected q (n ∷ names) = elim (Bool-cases (q n)) [
  | inl t ↦ rw (t, if◌then◌else◌) (t, selected q names)
  | inr t ↦ rw (t, if◌then◌else◌) (selected q names)
]

all_Each : (P : Text → Type 0) (names : List Text) → ((n : Text) → P n) → Each P names
all_Each P [] h = tt
all_Each P (n ∷ names) h = (h n, all_Each P names h)

not-eq-true : (b : Bool) → not b ≡ true → b ≡ false
not-eq-true false h = refl
not-eq-true true h = absurd (cc)

-- With raise_exception, check_train_infer_params_meta returns exactly when the two key sets match, in
-- the sense of the strict flag by which the planner compares them too, and every parameter of both
-- sides agrees. In all other cases it raises.
pub check_train_infer_params_meta_iff :
    (training_params_meta infer_parameters_meta : List ParameterMeta) (strict_key_match : Bool)
    → (check_train_infer_params_meta training_params_meta infer_parameters_meta true
          strict_key_match
        ≡ ok tt)
      ↔ ((key_mismatch strict_key_match
              (keys (by_name [] infer_parameters_meta))
              (keys (by_name [] training_params_meta))
            ≡ false)
          × ((name : Text) (i t : ParameterMeta)
              → get (by_name [] infer_parameters_meta) name ≡ some i
              → get (by_name [] training_params_meta) name ≡ some t
              → Agree i t))
unfolding check_train_infer_params_meta
check_train_infer_params_meta_iff training inference strict =
    let infer = by_name [] inference in
    let train = by_name [] training in
    let mismatch = key_mismatch strict (keys infer) (keys train) in
    (
      (λ h.
          let (u, e, h') = >>=-eq-ok (complain true (not mismatch)) _ h in
          let settled = check_names→Settled infer train (select (has train) (keys infer)) h' in
          (
            not-eq-true mismatch (complain-ok _ e),
            λ name i t fi ft.
                Each-name infer train (Settled infer train) (has train) (keys infer) name
                  (any-keys infer name ∙ has-found infer name i fi) (has-found train name t ft)
                  settled i t fi ft,
          )),
      (λ h.
          let fine = complain-fine (not mismatch) (ap not h.0) in
          rw (check_train_infer_params_meta, fine, ◌>>=◌)
            (Settled→check_names infer train (select (has train) (keys infer))
              (all_Each (Settled infer train) _ h.1)
              (Each-select (λ n. has infer n ≡ true) (has train) (keys infer) (has-keys infer))
              (selected (has train) (keys infer)))),
    )
