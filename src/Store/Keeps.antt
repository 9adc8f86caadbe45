-- ===== src/Store/Keeps.antt =====
-- Actions that leave a part of the state alone, whatever fails.
use rush_delivery_engine.Prelude.{◌≡◌, refl, ap, ◌∙◌, inl, inr, Option-cases, String}
use rush_delivery_engine.Platform.{Env}
use rush_delivery_engine.Store.Errors as Errors
use rush_delivery_engine.Store.Errors.{Error, Result, ok, err}
use rush_delivery_engine.Store.{Db, World, Action, continue, ◌>>=◌, map_err, wrapped}
use rush_delivery_engine.Store.Tx.{tick, call, settle_call, Ending, transaction}
use rush_delivery_engine.Store.Tx.Laws.{transaction-Ends}

module _ {S : Type 0} (view : World → S) where
  -- The action leaves the view of the state as it was.
  abbrev pub Keeps : {A : Type 0} → Action A → Type 0
  Keeps m = (w : World) → view (m w).1 ≡ view w

  pub continue-Keeps :
      {A B : Type 0} (r : Result A) (f : A → Action B)
      → ((a : A) → Keeps (f a))
      → Keeps (continue r f)
  continue-Keeps (ok a) f h = h a
  continue-Keeps (err e) f h = λ w. refl

  pub bind-Keeps :
      {A B : Type 0} (m : Action A) (f : A → Action B)
      → Keeps m
      → ((a : A) → Keeps (f a))
      → Keeps (m >>= f)
  bind-Keeps m f hm hf w = continue-Keeps (m w).0 f hf (m w).1 ∙ hm w

-- A transaction leaves alone what its body does.
pub transaction-Keeps :
    {S A : Type 0} (view : Db → S) (env : Env) (body : Action (Ending A))
    → Keeps (λ w. view w.db) body
    → Keeps (λ w. view w.db) (transaction env body)
transaction-Keeps view env body h w = elim (transaction-Ends env body w) [
  | inl (_, _, same) ↦ ap view same
  | inr (inl (_, _, _, same)) ↦ ap view same
  | inr (inr (_, _, _, left)) ↦ ap view left ∙ h (tick w)
]

pub call-Keeps :
    {S A : Type 0} (view : World → S) (env : Env) (op : Action A)
    → ((w : World) → view (tick w) ≡ view w)
    → Keeps view op
    → Keeps view (call env op)
unfolding call
call-Keeps view env op ticks h w = elim (Option-cases (env.fails w.calls)) [
  | inl up ↦ rw (up, settle_call) (h (tick w) ∙ ticks w)
  | inr (s, down) ↦ rw (down, settle_call) (ticks w)
]

pub map_err-world : {A : Type 0} (f : Error → Error) (r : Result A × World) → (map_err f r).1 ≡ r.1
map_err-world f (ok a, w) = refl
map_err-world f (err e, w) = refl

pub wrapped-Keeps :
    {S A : Type 0} (view : World → S) (text : String) (m : Action A)
    → Keeps view m
    → Keeps view (wrapped text m)
wrapped-Keeps view text m h w = ap view (map_err-world (Errors.wrap text) (m w)) ∙ h w
