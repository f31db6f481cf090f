-- ===== src/Probe/Payload.antt =====
-- What the probe records of a Forge server's login (src/probe.rs, src/forge.rs).
use plexsoftware.Prelude.{
  ℕ, zero, suc, ◌≡◌, ◌≢◌, ap, sym, ◌∙◌, inl, inr, true, List, [], ◌∷◌, ◌++◌, ok, some, ◌>>=◌,
  >>=-eq-ok, or_err, arith, append_assoc, append-nil, ◌==◌, Bool-cases,
}
use plexsoftware.Config.{Config}
use plexsoftware.Proto.Client.{Client, ClientState, login, state_eq, set_compression}
use plexsoftware.Proto.Packet.{RawPacket, Inbound, read_packet}
use plexsoftware.Proto.Packet.Loop.{
  go_on, give, gave, packet_loop, after_read-gave, after_body-gave, go_on-not-give,
}
use plexsoftware.Proto.Action.{Outbound}
use plexsoftware.Probe.{
  Crates, Dial, dial_client, probe_step, probe_loop, on_set_compression, on_plugin_request,
  answer_plugin_request,
}
use plexsoftware.Probe.LoggedIn.{LoggedIn, entered, asked, compression_changed, passed}
use plexsoftware.Probe.Answers.{
  succeeded, request_records, compression_records, success_records, success_given,
}

module _ (config : Config) (crates : Crates) where
  module _ (forge : config.server.forge ≡ true)
      (ids : crates.login.set_compression_id ≢ crates.login.plugin_request_id) where
    -- What is read from `i` to `i'` takes the dial `d` through its login to `t`, and the frames of the
    -- plugin requests are what is recorded in between.
    record IsRecorded (d t : Dial) (i i' : Inbound) : Type 0 where
      pub frames : List (List ℕ)
      pub logs_in : LoggedIn config crates d.client i frames t.client i'
      pub kept : t.payload ≡ d.payload ++ frames

    compression_changed-IsRecorded :
        (d u t : Dial) (p : RawPacket) (raw : List ℕ) (i i2 i' : Inbound)
        → d.client.state ≡ login
        → read_packet crates.wire d.client i ≡ (ok (some (p, raw)), i2)
        → p.id ≡ crates.login.set_compression_id
        → on_set_compression config crates d p ≡ ok (go_on u)
        → (u.client.state ≡ login) × (IsRecorded u t i2 i' → IsRecorded d t i i')
    unfolding set_compression
    compression_changed-IsRecorded d u t p raw i i2 i' logging_in read is e =
        let (threshold, decoded, client, payload) =
          compression_records config crates forge ids d u p e in
        (
          ap (λ (c : Client). c.state) client ∙ logging_in,
          λ later. record {
            frames = later.frames;
            logs_in =
                compression_changed d.client t.client i i2 i' later.frames p raw threshold read is
                  decoded (rw client at later.logs_in);
            kept = rw payload at later.kept;
          },
        )

    asked-IsRecorded :
        (d u t : Dial) (p : RawPacket) (raw : List ℕ) (i i2 i' : Inbound)
        → d.client.state ≡ login
        → read_packet crates.wire d.client i ≡ (ok (some (p, raw)), i2)
        → p.id ≡ crates.login.plugin_request_id
        → on_plugin_request config crates d p raw ≡ ok (go_on u)
        → (u.client.state ≡ login) × (IsRecorded u t i2 i' → IsRecorded d t i i')
    asked-IsRecorded d u t p raw i i2 i' logging_in read is e =
        let (client, payload) = request_records config crates forge ids d u p raw e in
        (
          ap (λ (c : Client). c.state) client ∙ logging_in,
          λ later. record {
            frames = raw ∷ later.frames;
            logs_in =
                asked d.client t.client i i2 i' later.frames p raw read is
                  (rw client at later.logs_in);
            kept =
                later.kept
                ∙ ap (λ (q : List (List ℕ)). q ++ later.frames) payload
                ∙ append_assoc d.payload (raw ∷ []) later.frames;
          },
        )

    passed-IsRecorded :
        (d u t : Dial) (p : RawPacket) (raw : List ℕ) (i i2 i' : Inbound)
        → d.client.state ≡ login
        → read_packet crates.wire d.client i ≡ (ok (some (p, raw)), i2)
        → p.id ≢ crates.login.set_compression_id
        → p.id ≢ crates.login.plugin_request_id
        → succeeded config crates d p ≡ ok (go_on u)
        → (u.client.state ≡ login) × (IsRecorded u t i2 i' → IsRecorded d t i i')
    passed-IsRecorded d u t p raw i i2 i' logging_in read isnt other e =
        let (client, payload, goes_on) = success_records config crates forge ids d u p e in
        (
          ap (λ (c : Client). c.state) client ∙ logging_in,
          λ later. record {
            frames = later.frames;
            logs_in =
                passed d.client t.client i i2 i' later.frames p raw read isnt other goes_on
                  (rw client at later.logs_in);
            kept = rw payload at later.kept;
          },
        )

    -- A packet behind which the login goes on.
    step-IsRecorded :
        (d u t : Dial) (p : RawPacket) (raw : List ℕ) (i i2 i' : Inbound)
        → d.client.state ≡ login
        → read_packet crates.wire d.client i ≡ (ok (some (p, raw)), i2)
        → probe_step config crates d p raw ≡ ok (go_on u)
        → (u.client.state ≡ login) × (IsRecorded u t i2 i' → IsRecorded d t i i')
    unfolding probe_step
    step-IsRecorded d u t p raw i i2 i' logging_in read e =
        let in_login : state_eq d.client.state login ≡ true =
          ap (λ (st : ClientState). state_eq st login) logging_in in
        elim (Bool-cases (p.id == crates.login.set_compression_id)) [
          | inl is ↦
              compression_changed-IsRecorded d u t p raw i i2 i' logging_in read
                (ground (arith, is)) (simp (in_login, is) at e)
          | inr isnt ↦ elim (Bool-cases (p.id == crates.login.plugin_request_id)) [
            | inl asks ↦
                asked-IsRecorded d u t p raw i i2 i' logging_in read (ground (arith, asks))
                  (simp (in_login, isnt, asks) at e)
            | inr other ↦
                passed-IsRecorded d u t p raw i i2 i' logging_in read (ground (arith, isnt))
                  (ground (arith, other)) (simp (in_login, isnt, other) at e)
          ]
        ]

    -- The packet that ends the login.
    given-IsRecorded :
        (d t : Dial) (p : RawPacket) (raw : List ℕ) (i i' : Inbound)
        → d.client.state ≡ login
        → read_packet crates.wire d.client i ≡ (ok (some (p, raw)), i')
        → probe_step config crates d p raw ≡ ok (give t)
        → IsRecorded d t i i'
    unfolding probe_step on_set_compression on_plugin_request
    given-IsRecorded d t p raw i i' logging_in read e =
        let in_login : state_eq d.client.state login ≡ true =
          ap (λ (st : ClientState). state_eq st login) logging_in in
        elim (Bool-cases (p.id == crates.login.set_compression_id)) [
          | inl is ↦ absurd (
              go_on-not-give (or_err (crates.login.decode_set_compression p.bytes))
                (λ threshold. record d { client = set_compression threshold d.client }) t
                (simp (in_login, is) at e))
          | inr isnt ↦ elim (Bool-cases (p.id == crates.login.plugin_request_id)) [
            | inl asks ↦
                let (request, decoded, rest) =
                  >>=-eq-ok (or_err (crates.login.decode_plugin_request p.bytes))
                    (λ r. answer_plugin_request config crates config.server.forge d r raw >>= λ a.
                      ok (go_on a))
                    (simp (in_login, isnt, asks) at e) in
                absurd (
                  go_on-not-give
                    (answer_plugin_request config crates config.server.forge d request raw) (λ a. a)
                    t rest)
            | inr other ↦
                let (payload, client, success) =
                  success_given config crates forge ids d t p (simp (in_login, isnt, other) at e) in
                record {
                  frames = [];
                  logs_in =
                      rw client (entered d.client i i' p raw read success (ground (arith, other)));
                  kept = payload ∙ sym (append-nil d.payload);
                }
          ]
        ]

    -- The loop of the login, on every fuel with which it ends.
    probe_loop-IsRecorded :
        (fuel : ℕ) (d t : Dial) (i i' : Inbound)
        → d.client.state ≡ login
        → packet_loop crates.wire dial_client (probe_step config crates) fuel d i
          ≡ some (ok (gave t), i')
        → IsRecorded d t i i'
    unfolding packet_loop
    probe_loop-IsRecorded zero d t i i' logging_in e = ground (arith, e)
    probe_loop-IsRecorded (suc fuel) d t i i' logging_in e =
        let step = probe_step config crates in
        let rest = packet_loop crates.wire dial_client step fuel in
        let (p, raw, i2, read, next) =
          after_read-gave crates.wire dial_client step rest d i' t
            (read_packet crates.wire d.client i) e in
        elim (after_body-gave crates.wire dial_client step rest i2 i' t (step d p raw) next) [
          | inl (given, same) ↦ given-IsRecorded d t p raw i i' logging_in (rw same at read) given
          | inr (u, on, later) ↦
              let (still, before) = step-IsRecorded d u t p raw i i2 i' logging_in read on in
              before (probe_loop-IsRecorded fuel u t i2 i' still later)
        ]

    -- A probe of a Forge server that gets past its login has recorded the frames of all plugin
    -- requests of the server, in the order in which they came, and no other bytes, if no other
    -- packet has the id of a plugin request.
    pub probe_loop_records :
        (fuel : ℕ) (client : Client) (out : Outbound) (i i' : Inbound) (d : Dial)
        → client.state ≡ login
        → probe_loop config crates fuel (record { client = client; out = out; payload = [] }) i
          ≡ some (ok (gave d), i')
        → LoggedIn config crates client i d.payload d.client i'
    unfolding probe_loop
    probe_loop_records fuel client out i i' d logging_in e =
        let whole =
          probe_loop-IsRecorded fuel (record { client = client; out = out; payload = [] }) d i i'
            logging_in e in
        rw whole.kept whole.logs_in
