-- ===== src/Cc/Ssa/Compiled/Ordered.antt =====
-- cc/ssa.c: proofs on the ids of emitted tokens.
use estros.Common.{ℕ, ◌≤◌, ◌<◌, ◌⊎◌, inl, inr, List, [], ◌∷◌, ◌++◌, arith}
use estros.Cc.Ssa.{SsaToken, first_arg}
use estros.Cc.Ssa.Optimise.Identity.{IsFresh, IsSsa, HasIds}

-- The results have ids from `low` on and below `high`, and the first arguments too, or they are ids
-- below the temporaries.
abbrev pub Within : (low high : ℕ) → List SsaToken → Type 0
Within low high [] = Unit
Within low high (t ∷ ts) =
    (low ≤ t.result.id)
    × (t.result.id < high)
    × (((first_arg t.args).id < 32)
        ⊎ ((low ≤ (first_arg t.args).id) × ((first_arg t.args).id < high)))
    × Within low high ts

-- The results have temporary ids below `low` or from `high` on.
abbrev pub Outside : (low high : ℕ) → List SsaToken → Type 0
Outside low high [] = Unit
Outside low high (t ∷ ts) =
    (32 ≤ t.result.id) × ((t.result.id < low) ⊎ (high ≤ t.result.id)) × Outside low high ts

pub Within-wider :
    (low high low' high' : ℕ) (ts : List SsaToken)
    → low' ≤ low
    → high ≤ high'
    → Within low high ts
    → Within low' high' ts
Within-wider low high low' high' [] hl hh w = tt
Within-wider low high low' high' (t ∷ ts) hl hh w = (
  omega arith,
  omega arith,
  elim w.2 [ inl small ↦ inl small | inr (l, h) ↦ inr (omega arith, omega arith) ],
  Within-wider low high low' high' ts hl hh w.3,
)

pub Within-append :
    (low high : ℕ) (ts us : List SsaToken)
    → Within low high ts
    → Within low high us
    → Within low high (ts ++ us)
Within-append low high [] us w v = v
Within-append low high (t ∷ ts) us w v = (w.0, w.1, w.2, Within-append low high ts us w.3 v)

-- A range of ids above another one, or below.
pub Within-Outside :
    (low high low' high' : ℕ) (ts : List SsaToken)
    → 32 ≤ low
    → (high ≤ low') ⊎ (high' ≤ low)
    → Within low high ts
    → Outside low' high' ts
Within-Outside low high low' high' [] some_id apart w = tt
Within-Outside low high low' high' (t ∷ ts) some_id apart w = (
  omega arith,
  elim apart [ inl below ↦ inl (omega arith) | inr above ↦ inr (omega arith) ],
  Within-Outside low high low' high' ts some_id apart w.3,
)

pub Outside-append :
    (low high : ℕ) (ts us : List SsaToken)
    → Outside low high ts
    → Outside low high us
    → Outside low high (ts ++ us)
Outside-append low high [] us w v = v
Outside-append low high (t ∷ ts) us w v = (w.0, w.1, Outside-append low high ts us w.2 v)

Outside-IsFresh :
    (low high id : ℕ) (us : List SsaToken)
    → Outside low high us
    → (id < 32) ⊎ ((low ≤ id) × (id < high))
    → IsFresh id us
Outside-IsFresh low high id [] o h = tt
Outside-IsFresh low high id (u ∷ us) o h = (
  elim h [
    | inl small ↦ omega arith
    | inr (l, r) ↦ elim o.1 [ inl below ↦ omega arith | inr above ↦ omega arith ]
  ],
  Outside-IsFresh low high id us o.2 h,
)

IsFresh-append :
    (id : ℕ) (ts us : List SsaToken) → IsFresh id ts → IsFresh id us → IsFresh id (ts ++ us)
IsFresh-append id [] us h k = k
IsFresh-append id (t ∷ ts) us h k = (h.0, IsFresh-append id ts us h.1 k)

pub IsSsa-append :
    (low high : ℕ) (ts us : List SsaToken)
    → Within low high ts
    → Outside low high us
    → IsSsa ts
    → IsSsa us
    → IsSsa (ts ++ us)
IsSsa-append low high [] us w o h k = k
IsSsa-append low high (t ∷ ts) us w o h k = (
  IsFresh-append t.result.id ts us h.0 (Outside-IsFresh low high t.result.id us o (inr (w.0, w.1))),
  IsFresh-append (first_arg t.args).id ts us h.1
      (Outside-IsFresh low high (first_arg t.args).id us o w.2),
  IsSsa-append low high ts us w.3 o h.2 k,
)

pub HasIds-append : (ts us : List SsaToken) → HasIds ts → HasIds us → HasIds (ts ++ us)
HasIds-append [] us h k = k
HasIds-append (t ∷ ts) us h k = (h.0, HasIds-append ts us h.1 k)
