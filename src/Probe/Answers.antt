-- ===== src/Probe/Answers.antt =====
-- What the packets of the login make of the probe's dial (src/probe.rs, src/forge.rs).
use plexsoftware.Prelude.{
  ℕ, ◌≡◌, ◌≢◌, inl, inr, true, List, [], ◌∷◌, ◌++◌, Outcome, ok, some, ◌>>=◌, >>=-eq-ok, or_err,
  or_err-ok, arith, ◌==◌, if◌then◌else◌, Bool-cases,
}
use plexsoftware.Prelude.Int.{ℤ}
use plexsoftware.Config.{Config}
use plexsoftware.Proto.Client.{play, set_state, set_compression}
use plexsoftware.Proto.Packet.{RawPacket}
use plexsoftware.Proto.Packet.Loop.{Step, go_on, give}
use plexsoftware.Proto.Login.{PluginRequest}
use plexsoftware.Probe.{Crates, Dial, on_set_compression, on_plugin_request, answer_plugin_request}
use plexsoftware.Forge.{respond_login_plugin_request}

module _ (config : Config) (crates : Crates) where
  -- What the step does with a packet that is neither of the two before the login's success.
  abbrev pub succeeded : Dial → RawPacket → Outcome (Step Dial Dial)
  succeeded d p =
      if p.id == crates.login.login_success_id
      then ok (give (record d { client = set_state play d.client }))
      else ok (go_on d)

  answer_records :
      (d t : Dial) (request : PluginRequest) (raw : List ℕ)
      → answer_plugin_request config crates true d request raw ≡ ok t
      → (t.client ≡ d.client) × (t.payload ≡ d.payload ++ raw ∷ [])
  unfolding answer_plugin_request
  answer_records d t request raw e =
      let (out, wrote, done) =
        >>=-eq-ok
          (respond_login_plugin_request crates.wire crates.login crates.forge d.client request
            d.out)
          (λ out. ok (record d { out = out; payload = d.payload ++ raw ∷ [] })) e in
      (ground (arith, done), ground (arith, done))

  module _ (forge : config.server.forge ≡ true)
      (ids : crates.login.set_compression_id ≢ crates.login.plugin_request_id) where
    pub request_records :
        (d t : Dial) (p : RawPacket) (raw : List ℕ)
        → on_plugin_request config crates d p raw ≡ ok (go_on t)
        → (t.client ≡ d.client) × (t.payload ≡ d.payload ++ raw ∷ [])
    unfolding on_plugin_request
    request_records d t p raw e =
        let (request, decoded, rest) =
          >>=-eq-ok (or_err (crates.login.decode_plugin_request p.bytes))
            (λ r.
              answer_plugin_request config crates config.server.forge d r raw >>= λ a. ok (go_on a))
            e in
        let (a, answered, same) =
          >>=-eq-ok (answer_plugin_request config crates config.server.forge d request raw)
            (λ a. ok (go_on a)) rest in
        let (client, payload) = answer_records d a request raw (rw forge at answered) in
        (ground (arith, same, client), ground (arith, same, payload))

    pub compression_records :
        (d t : Dial) (p : RawPacket)
        → on_set_compression config crates d p ≡ ok (go_on t)
        → (threshold : ℤ) × (crates.login.decode_set_compression p.bytes ≡ some threshold)
          × (t.client ≡ set_compression threshold d.client)
          × (t.payload ≡ d.payload)
    unfolding on_set_compression
    compression_records d t p e =
        let (threshold, decoded, same) =
          >>=-eq-ok (or_err (crates.login.decode_set_compression p.bytes))
            (λ threshold. ok (go_on (record d { client = set_compression threshold d.client })))
            e in
        (
          threshold,
          or_err-ok (crates.login.decode_set_compression p.bytes) threshold decoded,
          ground (arith, same),
          ground (arith, same),
        )

    pub success_records :
        (d t : Dial) (p : RawPacket)
        → succeeded d p ≡ ok (go_on t)
        → (t.client ≡ d.client) × (t.payload ≡ d.payload) × (p.id ≢ crates.login.login_success_id)
    success_records d t p e = elim (Bool-cases (p.id == crates.login.login_success_id)) [
      | inl is ↦ ground (arith, simp is at e)
      | inr isnt ↦
          (ground (arith, simp isnt at e), ground (arith, simp isnt at e), ground (arith, isnt))
    ]

    pub success_given :
        (d t : Dial) (p : RawPacket)
        → succeeded d p ≡ ok (give t)
        → (t.payload ≡ d.payload)
          × (t.client ≡ set_state play d.client)
          × (p.id ≡ crates.login.login_success_id)
    success_given d t p e = elim (Bool-cases (p.id == crates.login.login_success_id)) [
      | inl is ↦ ground (arith, simp is at e)
      | inr isnt ↦ ground (arith, simp isnt at e)
    ]
