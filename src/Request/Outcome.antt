-- ===== src/Request/Outcome.antt =====
-- What a request of the functions in crates/futu/src/trade and quote returns on a refusal, and when
-- it succeeds.
use nautilus_futu.Prelude.{
  ℕ, ◌≡◌, refl, ap, subst, ◌∙◌, List, Bool, true, false, Result, ok, err, if◌then◌else◌,
}
use nautilus_futu.Prelude.Words.{is_zero}
use nautilus_futu.Prelude.Text.{Text}
use nautilus_futu.Protocol.Codec.{FutuMessage}
use nautilus_futu.Client.Connection.{ConnectionError}
use nautilus_futu.Client.Init.{unwrap_or_default}
use nautilus_futu.Generated.Common.{Response}
use nautilus_futu.Request.{Requester, Wire, Errors, checked, answered, exchange}

-- The server's answer decodes to `r`, with an error code in it.
abbrev pub Refusal : {C S : Type 0} → Wire C S → FutuMessage → Response S → Type 0
Refusal w msg r = (w.decode msg.body ≡ ok r) × (is_zero r.ret_type ≡ false)

-- Whatever is asked, the reply is this one.
abbrev pub Replies : {σ : Type 0} → Requester σ → FutuMessage → Type 0
Replies {σ} t msg = (p : ℕ) (body : List ℕ) (s : σ) → (t.request p body s).0 ≡ ok msg

-- A request with this protocol id got a reply that decodes to `r`, with `ret_type` 0.
abbrev pub Accepted : {σ C S : Type 0} → Requester σ → Wire C S → ℕ → Response S → Type 0
Accepted {σ} {C} t w proto_id r =
    (c2s : C) × (s : σ) × (msg : FutuMessage) × ((t.request proto_id (w.encode_to_vec c2s) s).0
      ≡ ok msg)
    × (w.decode msg.body ≡ ok r)
    × (is_zero r.ret_type ≡ true)

module _ {E S : Type 0} (errors : Errors E) (r : Response S) where
  checked_ok :
      (d : Result Text (Response S))
      → checked errors d ≡ ok r
      → (d ≡ ok r) × (is_zero r.ret_type ≡ true)
  unfolding checked
  checked_ok (err x) e = cc
  checked_ok (ok r') e =
      let (same, z) = by_code (is_zero r'.ret_type) refl e in (ap (λ x. ok x) same, z)
    where
      by_code :
          (b : Bool)
          → is_zero r'.ret_type ≡ b
          → (if b then ok r' else err (errors.server r'.ret_type (unwrap_or_default r'.ret_msg)))
            ≡ ok r
          → (r' ≡ r) × (is_zero r.ret_type ≡ true)
      by_code true z e =
          let same : r' ≡ r = cc in
          (same, subst (λ (x : Response S). is_zero x.ret_type ≡ true) same z)
      by_code false z e = cc

module _ {σ E C S : Type 0} (t : Requester σ) (errors : Errors E) (w : Wire C S) (proto_id : ℕ)
    (c2s : C) (st : σ) where
  pub exchange_refused :
      (msg : FutuMessage) (r : Response S)
      → Replies t msg
      → Refusal w msg r
      → (exchange t errors w proto_id c2s st).0
        ≡ err (errors.server r.ret_type (unwrap_or_default r.ret_msg))
  unfolding exchange answered checked
  exchange_refused msg r every (d, z) =
      ap (answered errors w.decode) (every proto_id (w.encode_to_vec c2s) st)
      ∙ ap (checked errors) d
      ∙ rw z

  pub exchange-Accepted :
      (r : Response S) → (exchange t errors w proto_id c2s st).0 ≡ ok r → Accepted t w proto_id r
  unfolding exchange answered
  exchange-Accepted r e = by_reply (t.request proto_id (w.encode_to_vec c2s) st).0 refl e
    where
      by_reply :
          (reply : Result ConnectionError FutuMessage)
          → (t.request proto_id (w.encode_to_vec c2s) st).0 ≡ reply
          → answered errors w.decode reply ≡ ok r
          → Accepted t w proto_id r
      by_reply (err x) h e = cc
      by_reply (ok msg) h e =
          let (d, z) = checked_ok errors r (w.decode msg.body) e in (c2s, st, msg, h, d, z)
