-- ===== src/Cc/Ssa/Optimise/Identity.antt =====
-- cc/ssa.c: proofs on the elimination of identity tokens.
use mathlib.Core.Bool.{false≢true}
use estros.Common.{
  ℕ, ◌≡◌, ◌≢◌, true, List, [], ◌∷◌, map, ◌==◌, ==_iff, inl, inr, Bool-cases, update, refl, arith,
  sym, ap, ap₂, ◌∙◌,
}
use estros.Cc.Token.{Strview}
use estros.Cc.Ssa.{SsaArgument, SsaToken, SsaTokenType, first_arg, is_raw_data, is_identity}
use estros.Cc.Ssa.Meaning.{by_type, by_type_raw, resume_same, effect, run_tokens}
use estros.Cc.Ssa.Optimise.{replace_arg, replace_in, cc_ssa_replace_with, has_ids}

-- No token of the list has this id for its result.
abbrev pub IsFresh : ℕ → List SsaToken → Type 0
IsFresh id [] = Unit
IsFresh id (t ∷ ts) = (id ≢ t.result.id) × IsFresh id ts

-- Single assignment: no later token writes the result of a token or its first argument.
abbrev pub IsSsa : List SsaToken → Type 0
IsSsa [] = Unit
IsSsa (t ∷ ts) = IsFresh t.result.id ts × IsFresh (first_arg t.args).id ts × IsSsa ts

replace_in-result :
    (from to : SsaArgument) (t : SsaToken) → (replace_in from to t).result ≡ t.result
replace_in-result from to t = elim (Bool-cases (is_raw_data t.type)) [
  | inl raw ↦ rw raw refl
  | inr other ↦ rw other refl
]

replace_in-type : (from to : SsaArgument) (t : SsaToken) → (replace_in from to t).type ≡ t.type
replace_in-type from to t = elim (Bool-cases (is_raw_data t.type)) [
  | inl raw ↦ rw raw refl
  | inr other ↦ rw other refl
]

IsFresh-replace :
    (from to : SsaArgument) (id : ℕ) (ts : List SsaToken)
    → IsFresh id ts
    → IsFresh id (cc_ssa_replace_with from to ts)
unfolding cc_ssa_replace_with
IsFresh-replace from to id [] h = tt
IsFresh-replace from to id (t ∷ ts) h =
    (rw (replace_in-result from to t) h.0, IsFresh-replace from to id ts h.1)

module _ {ℓ} {V : Type ℓ} (op : SsaTokenType → List V → V) (raw : Strview → V)
    (from to : SsaArgument) (some_id : from.id ≢ 0) where
  -- Two environments that agree where the one has the value of `to` for `from`.
  abbrev Follows : (e1 e2 : ℕ → V) → Type ℓ
  Follows e1 e2 = ((x : ℕ) → x ≢ from.id → e1 x ≡ e2 x) × (e1 from.id ≡ e2 to.id)

  value_replaced :
      (e1 e2 : ℕ → V) (a : SsaArgument) → Follows e1 e2 → e2 (replace_arg from to a).id ≡ e1 a.id
  value_replaced e1 e2 a f = elim (Bool-cases (a.id == from.id)) [
    | inl same ↦
        let eq : a.id ≡ from.id = (==_iff a.id from.id).0 same in rw (same, ap e1 eq) (sym f.1)
    | inr other ↦
        let ne : a.id ≢ from.id = λ eq. false≢true (sym other ∙ (==_iff a.id from.id).1 eq) in
        rw other (sym (f.0 a.id ne))
  ]

  first_replaced :
      (e1 e2 : ℕ → V) (args : List SsaArgument)
      → Follows e1 e2
      → e2 (first_arg (map (replace_arg from to) args)).id ≡ e1 (first_arg args).id
  first_replaced e1 e2 [] f = sym (f.0 0 (λ h. some_id (sym h)))
  first_replaced e1 e2 (a ∷ args) f = value_replaced e1 e2 a f

  args_replaced :
      (e1 e2 : ℕ → V) (args : List SsaArgument)
      → Follows e1 e2
      → map (λ a. e2 a.id) (map (replace_arg from to) args) ≡ map (λ a. e1 a.id) args
  args_replaced e1 e2 [] f = refl
  args_replaced e1 e2 (a ∷ args) f =
      ap₂ (λ v vs. v ∷ vs) (value_replaced e1 e2 a f) (args_replaced e1 e2 args f)

  effect_replaced :
      (e1 e2 : ℕ → V) (t : SsaToken)
      → Follows e1 e2
      → effect op raw e2 (replace_in from to t) ≡ effect op raw e1 t
  effect_replaced e1 e2 t f = elim (Bool-cases (is_raw_data t.type)) [
    | inl is_raw ↦ rw is_raw (by_type_raw t.type _ _ (raw t.raw) _ _ is_raw)
    | inr other ↦ rw other (
        ap₂ (λ x z. by_type t.type x (raw t.raw) z) (first_replaced e1 e2 t.args f)
          (ap (op t.type) (args_replaced e1 e2 t.args f)))
  ]

  Follows-update :
      (e1 e2 : ℕ → V) (id : ℕ) (v : V)
      → from.id ≢ id
      → to.id ≢ id
      → Follows e1 e2
      → Follows (update e1 id v) (update e2 id v)
  unfolding update
  Follows-update e1 e2 id v hf ht f = (
    λ x ne. elim (Bool-cases (x == id)) [
      | inl same ↦ rw same refl
      | inr other ↦ rw other (f.0 x ne)
    ],
    ground (arith, f.1),
  )

  pub run_replaced :
      (ts : List SsaToken) (e1 e2 : ℕ → V)
      → IsFresh from.id ts
      → IsFresh to.id ts
      → Follows e1 e2
      → run_tokens op raw e2 (cc_ssa_replace_with from to ts) ≡ run_tokens op raw e1 ts
  unfolding run_tokens cc_ssa_replace_with
  run_replaced [] e1 e2 hf ht f = refl
  run_replaced (t ∷ ts) e1 e2 hf ht f =
      rw (run_tokens, effect_replaced e1 e2 t f, replace_in-result from to t)
        (resume_same (effect op raw e1 t) t.result.id e2 e1 _ _ (run_replaced ts e1 e2 hf.1 ht.1 f)
          (λ v.
            run_replaced ts (update e1 t.result.id v) (update e2 t.result.id v) hf.1 ht.1
              (Follows-update e1 e2 t.result.id v hf.0 ht.0 f)))

first_arg-replaced :
    (from to : SsaArgument) (args : List SsaArgument)
    → from.id ≢ 0
    → first_arg (map (replace_arg from to) args) ≡ replace_arg from to (first_arg args)
first_arg-replaced from to [] h = ground arith
first_arg-replaced from to (a ∷ args) h = refl

-- The first argument after the replacement: its old id or the new one.
IsFresh-first_arg :
    (from to : SsaArgument) (t : SsaToken) (ts : List SsaToken)
    → from.id ≢ 0
    → IsFresh (first_arg t.args).id ts
    → IsFresh to.id ts
    → IsFresh (first_arg (replace_in from to t).args).id ts
IsFresh-first_arg from to t ts some_id h hto = elim (Bool-cases (is_raw_data t.type)) [
  | inl raw ↦ rw raw h
  | inr other ↦
      rw (other, first_arg-replaced from to t.args some_id)
        (elim (Bool-cases ((first_arg t.args).id == from.id)) [
          | inl same ↦ rw same hto
          | inr differs ↦ rw differs h
        ])
]

pub IsSsa-replace :
    (from to : SsaArgument) (ts : List SsaToken)
    → from.id ≢ 0
    → IsFresh to.id ts
    → IsSsa ts
    → IsSsa (cc_ssa_replace_with from to ts)
unfolding cc_ssa_replace_with
IsSsa-replace from to [] some_id hto h = tt
IsSsa-replace from to (t ∷ ts) some_id hto h = (
  rw (replace_in-result from to t) (IsFresh-replace from to t.result.id ts h.0),
  IsFresh-replace from to (first_arg (replace_in from to t).args).id ts
      (IsFresh-first_arg from to t ts some_id h.1 hto.1),
  IsSsa-replace from to ts some_id hto.1 h.2,
)

-- The assertion holds at each identity token.
abbrev pub HasIds : List SsaToken → Type 0
HasIds [] = Unit
HasIds (t ∷ ts) = (is_identity t.type ≡ true → has_ids t ≡ true) × HasIds ts

pub ids_ne : (t : SsaToken) → has_ids t ≡ true → (t.result.id ≢ 0) × ((first_arg t.args).id ≢ 0)
ids_ne t h = ground arith

replace_arg_ne : (from to a : SsaArgument) → to.id ≢ 0 → a.id ≢ 0 → (replace_arg from to a).id ≢ 0
replace_arg_ne from to a ht h = ground arith

has_ids-replace :
    (from to : SsaArgument) (t : SsaToken)
    → from.id ≢ 0
    → to.id ≢ 0
    → has_ids t ≡ true
    → has_ids (replace_in from to t) ≡ true
has_ids-replace from to t hf ht h = elim (Bool-cases (is_raw_data t.type)) [
  | inl raw ↦ rw raw h
  | inr other ↦
      let (hr, ha) = ids_ne t h in
      let ne = replace_arg_ne from to (first_arg t.args) ht ha in
      rw (other, first_arg-replaced from to t.args hf) (ground arith)
]

pub HasIds-replace :
    (from to : SsaArgument) (ts : List SsaToken)
    → from.id ≢ 0
    → to.id ≢ 0
    → HasIds ts
    → HasIds (cc_ssa_replace_with from to ts)
unfolding cc_ssa_replace_with
HasIds-replace from to [] hf ht h = tt
HasIds-replace from to (t ∷ ts) hf ht h = (
  λ id.
      has_ids-replace from to t hf ht (h.0 (sym (ap is_identity (replace_in-type from to t)) ∙ id)),
  HasIds-replace from to ts hf ht h.1,
)

pub is_identity_type :
    (type : SsaTokenType) → is_identity type ≡ true → type ≡ SsaTokenType.identity
is_identity_type SsaTokenType.identity h = refl
is_identity_type _ h = absurd (false≢true h)
