-- ===== src/Status/Admission.antt =====
-- For whom the server is started (src/status.rs).
use plexsoftware.Prelude.{
  ==_iff, ℕ, ◌≡◌, ◌≢◌, refl, Bool, true, false, List, Option, none, some, arith, Option-cases, inl,
  inr, Text,
}
use plexsoftware.Config.{Config}
use plexsoftware.Mc.Ban.{BannedIp, entry_is_banned}
use plexsoftware.Mc.Ban
use plexsoftware.Proto.Client.{login}
use plexsoftware.Proto.Packet.{RawPacket}
use plexsoftware.Server.Model.{Server, ban_entry, is_banned_ip, is_whitelisted}
use plexsoftware.Server.Stop.{World, start}
use plexsoftware.Status.{
  Connection, Host, admit, refusal, ban_reason, ban_or_whitelist, on_login_start, handle,
}

-- The whitelist lets a player pass whose name it has, and one whose name was not read.
abbrev pub admitted : Server → Option Text → Bool
admitted s none = true
admitted s (some name) = is_whitelisted name s

module _ (config : Config) (host : Host) where
  ban_reason-none :
      (now ip : ℕ) (s : Server)
      → ban_reason config host now (ban_entry ip s) ≡ none
      → is_banned_ip host.dates now ip s ≡ false
  unfolding ban_reason ban_entry is_banned_ip Ban.is_banned
  ban_reason-none now ip s e = go (Ban.get s.banned_ips ip) refl
    where
      go :
          (o : Option BannedIp)
          → Ban.get s.banned_ips ip ≡ o
          → is_banned_ip host.dates now ip s ≡ false
      go none found = simp found
      go (some entry) found = ground (arith, found, e)

  refusal-none :
      (now : ℕ) (username : Option Text) (s : Server) (c : Connection)
      → refusal config host now username s c ≡ none
      → (config.lockout.enabled ≡ false)
        × (is_banned_ip host.dates now c.client.peer_ip s ≡ false)
        × (admitted s username ≡ true)
  unfolding refusal ban_or_whitelist
  refusal-none now username s c e =
      go (ban_reason config host now (ban_entry c.client.peer_ip s)) refl username e
    where
      go :
          (o : Option Text)
          → ban_reason config host now (ban_entry c.client.peer_ip s) ≡ o
          → (username : Option Text) → refusal config host now username s c ≡ none
          → (config.lockout.enabled ≡ false)
            × (is_banned_ip host.dates now c.client.peer_ip s ≡ false)
            × (admitted s username ≡ true)
      go (some msg) found username e = ground (arith, found, e)
      go none found none e = (ground (arith, e), ban_reason-none now c.client.peer_ip s found, refl)
      go none found (some name) e = (
        ground (arith, e),
        ban_reason-none now c.client.peer_ip s found,
        ground (arith, found, e),
      )

  on_login_start_ne :
      (world : World) (p : RawPacket) (raw : List ℕ) (s : Server) (c : Connection)
      → (on_login_start config host world p raw s c).0 ≢ s
      → (config.lockout.enabled ≡ false)
        × (is_banned_ip host.dates world.now c.client.peer_ip s ≡ false)
        × (admitted s (host.packets.decode_login_start p.bytes) ≡ true)
        × ((on_login_start config host world p raw s c).0 ≡ (start config world s).0)
  unfolding on_login_start admit
  on_login_start_ne world p raw s c changed =
      let username = host.packets.decode_login_start p.bytes in
      let named = record c { info = record c.info { username = username } } in
      elim (Option-cases (refusal config host world.now username s named)) [
        | inl allowed ↦
            let (lock, ban, white) = refusal-none world.now username s named allowed in
            (lock, ban, white, simp allowed)
        | inr (msg, refused) ↦ absurd (changed (simp refused))
      ]

  -- The server is only started for a client in the login state that neither the lockout nor a ban
  -- of its address nor the whitelist keeps out; for any other packet it is left as it is.
  pub handle-ne :
      (world : World) (p : RawPacket) (raw : List ℕ) (s : Server) (c : Connection)
      → (handle config host world p raw s c).0 ≢ s
      → (c.client.state ≡ login)
        × (config.lockout.enabled ≡ false)
        × (is_banned_ip host.dates world.now c.client.peer_ip s ≡ false)
        × (admitted s (host.packets.decode_login_start p.bytes) ≡ true)
        × ((handle config host world p raw s c).0 ≡ (start config world s).0)
  unfolding handle
  handle-ne world p raw s c changed = ground (arith, changed, on_login_start_ne world p raw s c)

  unbanned_reason :
      (now ip : ℕ) (s : Server)
      → is_banned_ip host.dates now ip s ≡ false
      → ban_reason config host now (ban_entry ip s) ≡ none
  unfolding ban_reason ban_entry is_banned_ip Ban.is_banned
  unbanned_reason now ip s e = go (Ban.get s.banned_ips ip) refl
    where
      go :
          (o : Option BannedIp)
          → Ban.get s.banned_ips ip ≡ o
          → ban_reason config host now (ban_entry ip s) ≡ none
      go none found = simp found
      go (some entry) found = ground (arith, found, e)

  -- A login packet whose name cannot be decoded starts the server whatever the whitelist holds, if
  -- the lockout is off and the address is not banned.
  pub unnamed_login_starts :
      (world : World) (p : RawPacket) (raw : List ℕ) (s : Server) (c : Connection)
      → c.client.state ≡ login
      → p.id ≡ host.packets.server_login_start
      → host.packets.decode_login_start p.bytes ≡ none
      → config.lockout.enabled ≡ false
      → is_banned_ip host.dates world.now c.client.peer_ip s ≡ false
      → (handle config host world p raw s c).0 ≡ (start config world s).0
  unfolding handle on_login_start admit refusal ban_or_whitelist
  unnamed_login_starts world p raw s c logging id unnamed open_to_all unbanned = simp (
    logging,
    id,
    (==_iff _ _).1 refl,
    unnamed,
    open_to_all,
    unbanned_reason world.now c.client.peer_ip s unbanned,
  )
