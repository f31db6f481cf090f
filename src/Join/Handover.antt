-- ===== src/Join/Handover.antt =====
-- Where a client can end up (src/join/mod.rs).
use plexsoftware.Prelude.{
  ℕ, suc, ◌≡◌, ◌⊎◌, inl, inr, List, [], ◌∷◌, Bool, true, false, Outcome, ok, err, panic, assert,
  ◌>>◌, arith, Bool-cases,
}
use plexsoftware.Types.{Wire}
use plexsoftware.Config.{Config, SocketAddr, Method, hold, forward, lobby}
use plexsoftware.Config
use plexsoftware.Proto.Client.{Client, login, state_eq}
use plexsoftware.Proto.Action.{Packets, Outbound}
use plexsoftware.Server.Model.{Server}
use plexsoftware.Service.{ProxyHeader}
use plexsoftware.Join.{
  Fate, forwarded, MethodResult, consumed, continued, Meeting, hold_client, occupy_hold,
  occupy_kick, occupy_forward, occupy_lobby, occupy_method, occupy_from, after_method, occupy,
}
use plexsoftware.Join.Holding.{IsReady, hold_client_iff}

-- What stands behind a stream that is forwarded: the whole history goes first, and the target is
-- the server after a hold that saw it start, or the configured one.
pub record IsForward (config : Config) (meeting : Meeting) (history : List ℕ) (target : SocketAddr)
    (queue : List ℕ) : Type 0 where
  pub whole : queue ≡ history
  pub allowed :
      ((target ≡ config.server.address) × IsReady meeting.observed)
      ⊎ (target ≡ config.join.forward.address)

after_method_lem :
    (rest : Outcome Fate) (r : Outcome MethodResult) (fate : Fate)
    → after_method rest r ≡ ok fate
    → (r ≡ ok (consumed fate)) ⊎ (rest ≡ ok fate)
unfolding after_method
after_method_lem rest (ok (consumed other)) fate e = inl (ground (arith, e))
after_method_lem rest (ok continued) fate e = inr e
after_method_lem rest err fate e = ground (arith, e)
after_method_lem rest panic fate e = ground (arith, e)

asserted :
    (b : Bool) {body : Outcome Fate} {fate : Fate} → (assert b >> body) ≡ ok fate → body ≡ ok fate
asserted true e = e
asserted false e = ground (arith, e)

module _ (w : Wire) (packets : Packets) (config : Config) (meeting : Meeting) (client : Client)
    (history login_queue : List ℕ) (out : Outbound) where
  kick-not_forwarded :
      (s : Server) (h : ProxyHeader) (target : SocketAddr) (queue : List ℕ)
      → occupy_kick w packets config meeting client s out ≡ ok (consumed (forwarded h target queue))
      → ⊥
  unfolding occupy_kick
  kick-not_forwarded s h target queue e = ground (arith, e)

  occupy_hold-IsForward :
      (s : Server) (h : ProxyHeader) (target : SocketAddr) (queue : List ℕ)
      → occupy_hold config meeting s history ≡ consumed (forwarded h target queue)
      → IsForward config meeting history target queue
  unfolding occupy_hold
  occupy_hold-IsForward s h target queue e = elim (Bool-cases (hold_client meeting.observed)) [
    | inl let_through ↦
        let ready = (hold_client_iff meeting.observed).0 let_through in
        record { whole = ground (arith, e); allowed = inl (ground (arith, e), ready) }
    | inr kept_out ↦ ground (arith, e, kept_out)
  ]

  occupy_method-IsForward :
      (m : Method) (s : Server) (h : ProxyHeader) (target : SocketAddr) (queue : List ℕ)
      → occupy_method w packets config meeting client history login_queue out m s
        ≡ ok (consumed (forwarded h target queue))
      → IsForward config meeting history target queue
  unfolding occupy_method occupy_forward occupy_lobby
  occupy_method-IsForward Config.kick s h target queue e =
      absurd (kick-not_forwarded s h target queue e)
  occupy_method-IsForward hold s h target queue e =
      occupy_hold-IsForward s h target queue (ground (arith, e))
  occupy_method-IsForward forward s h target queue e = record {
    whole = ground (arith, e);
    allowed = inr (ground (arith, e));
  }
  occupy_method-IsForward lobby s h target queue e = ground (arith, e)

  occupy_from-IsForward :
      (n : ℕ) (ms : List Method) (h : ProxyHeader) (target : SocketAddr) (queue : List ℕ)
      → occupy_from w packets config meeting client history login_queue out n ms
        ≡ ok (forwarded h target queue)
      → IsForward config meeting history target queue
  unfolding occupy_from
  occupy_from-IsForward n [] h target queue e = ground (arith, e)
  occupy_from-IsForward n (m ∷ ms) h target queue e =
      let result =
        occupy_method w packets config meeting client history login_queue out m
          (meeting.server n) in
      let rest = occupy_from w packets config meeting client history login_queue out (suc n) ms in
      elim (after_method_lem rest result (forwarded h target queue) e) [
        | inl decided ↦ occupy_method-IsForward m (meeting.server n) h target queue decided
        | inr later ↦ occupy_from-IsForward (suc n) ms h target queue later
      ]

  -- A client whose stream is forwarded has its whole history sent first, to the server, and then
  -- only after a hold that saw the server start, or to the target that is configured for it.
  pub occupy-IsForward :
      (h : ProxyHeader) (target : SocketAddr) (queue : List ℕ)
      → occupy w packets config meeting client history login_queue out
        ≡ ok (forwarded h target queue)
      → IsForward config meeting history target queue
  unfolding occupy
  occupy-IsForward h target queue e =
      occupy_from-IsForward 0 config.join.methods h target queue
        (asserted (state_eq client.state login) e)
