-- ===== src/Routes/Answers.antt =====
-- What a handler of src/presentation/http/guarded_routes.rs answers, and what a refusal leaves.
use backbone_lifecycle.Prelude.{
  ℕ, ◌≡◌, inl, inr, refl, List, Bool, Option, none, some, Result, arith,
}
use backbone_lifecycle.Crates.Decimals.{Decimals}
use backbone_lifecycle.Crates.Calendar.{Calendar}
use backbone_lifecycle.Offboarding.Outcomes.{State}
use backbone_lifecycle.FinalSettlement
use backbone_lifecycle.Routes.Settled.{Settled, returned, failed}
use backbone_lifecycle.Routes.Responses.{
  Response, err_response, bad_request, respond, created, done_ok, staged, acknowledged, paid, filed,
  reminded,
}
use backbone_lifecycle.Routes.Statuses.{IsRefusal, IsSuccess, Refuses, err_response-IsRefusal}

abbrev pub Succeeds : Option Response → Type 0
Succeeds none = ⊥
Succeeds (some r) = IsSuccess r

pub created-Succeeds : (id : ℕ) → Succeeds (created id)
created-Succeeds id = record { fine = inr refl; uncoded = λ c h. cc }

pub done_ok-Succeeds : (b : Bool) → Succeeds (done_ok b)
done_ok-Succeeds b = record { fine = inl refl; uncoded = λ c h. cc }

pub staged-Succeeds : (e : Option ℕ) → Succeeds (staged e)
staged-Succeeds none = record { fine = inl refl; uncoded = λ c h. cc }
staged-Succeeds (some n) = record { fine = inl refl; uncoded = λ c h. cc }

pub acknowledged-Succeeds : (ack : Option FinalSettlement.GlPostAck) → Succeeds (acknowledged ack)
acknowledged-Succeeds none = record { fine = inl refl; uncoded = λ c h. cc }
acknowledged-Succeeds (some ack) = record { fine = inl refl; uncoded = λ c h. cc }

pub paid-Succeeds : (p : Option (Unit {0})) → Succeeds (paid p)
paid-Succeeds none = record { fine = inl refl; uncoded = λ c h. cc }
paid-Succeeds (some tt) = record { fine = inl refl; uncoded = λ c h. cc }

pub filed-Succeeds : (id : ℕ) → Succeeds (filed id)
filed-Succeeds id = record { fine = inr refl; uncoded = λ c h. cc }

pub reminded-Succeeds : (ids : List ℕ) → Succeeds (reminded ids)
reminded-Succeeds ids = record { fine = inl refl; uncoded = λ c h. cc }

module _ (C : Calendar) (D : Decimals) where
  -- What a handler answers and leaves: a success, a refusal or a panic that leaves all tables alone,
  -- or the refusal of a notification, before which the checkpoint was recorded.
  pub data Answered (w : State C D) : Option Response × State C D → Type 0 where
    succeeded : (r : Response) (v : State C D) → IsSuccess r → Answered w (some r, v)
    refused : (r : Response) (v : State C D) → IsRefusal r → v.db ≡ w.db → Answered w (some r, v)
    crashed : (v : State C D) → v.db ≡ w.db → Answered w (none, v)
    unnotified :
        (v : State C D) → Answered w (some (err_response "activity_scheduling_failed" 422), v)

  pub success-Answered :
      (w : State C D) (o : Option Response) (v : State C D) → Succeeds o → Answered w (o, v)
  success-Answered w none v h = elim h [ ]
  success-Answered w (some r) v h = succeeded r v h

  pub refusal-Answered :
      (w : State C D) (o : Option Response) (v : State C D)
      → Refuses o
      → v.db ≡ w.db
      → Answered w (o, v)
  refusal-Answered w none v h same = crashed v same
  refusal-Answered w (some r) v h same = refused r v h same

  pub respond-Answered :
      {E A : Type 0} (w : State C D) (f : A → Option Response) (g : E → Option Response)
      {r : Result E A × State C D}
      → ((a : A) → Succeeds (f a))
      → ((e : E) → Refuses (g e))
      → Settled C D w r
      → Answered w (respond f g r)
  respond-Answered w f g fine coded (returned {a} {v}) = success-Answered w (f a) v (fine a)
  respond-Answered w f g fine coded (failed {e} {v} same) =
      refusal-Answered w (g e) v (coded e) same

  pub bad_request-Answered : (w : State C D) → Answered w (bad_request, w)
  bad_request-Answered w =
      refused _ w (err_response-IsRefusal "bad_request" 400 (omega arith, omega arith)) refl
