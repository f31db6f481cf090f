-- ===== src/Mc/Ban.antt =====
-- src/mc/ban.rs: banned addresses. JSON, the Unicode tables and dates are the crates', so the
-- parsed entries, `to_lowercase` and the parser of expiry dates are parameters.
use plexsoftware.Prelude.{
  ℕ, ◌≡◌, refl, List, [], ◌∷◌, Option, none, some, Bool, true, false, Text, ltb, ◌==◌, eq_text,
  if◌then◌else◌, map_some, unwrap_or, arith, or_else,
}
use plexsoftware.Prelude.Strings.{codes, trim}

pub record BannedIp : Type 0 where
  pub ip : ℕ
  pub created : Option Text
  pub source : Option Text
  pub expires : Option Text
  pub reason : Option Text

-- What `BannedIp::is_banned` uses of chrono and of the standard library. Times are in
-- milliseconds.
pub record Dates : Type 0 where
  pub to_lowercase : Text → Text
  pub parse_date : Text → Option ℕ

abbrev pub expiry_forever : Text
expiry_forever = codes "forever"

-- The map from addresses to entries, the latest insertion of a key in its place.
pub record BannedIps : Type 0 where
  pub ips : List (ℕ × BannedIp)

unfoldable pub get_ip : List (ℕ × BannedIp) → ℕ → Option BannedIp
get_ip [] ip = none
get_ip ((k, entry) ∷ m) ip = if k == ip then some entry else get_ip m ip

unfoldable pub insert_ip : ℕ → BannedIp → List (ℕ × BannedIp) → List (ℕ × BannedIp)
insert_ip ip entry [] = (ip, entry) ∷ []
insert_ip ip entry ((k, old) ∷ m) =
    if k == ip then (ip, entry) ∷ m else (k, old) ∷ insert_ip ip entry m

unfoldable pub get : BannedIps → ℕ → Option BannedIp
unfolding get_ip
get b ip = get_ip b.ips ip

module _ (dates : Dates) (now : ℕ) where
  -- Whether an expiry text is past; a text that is no date counts as not past.
  unfoldable pub is_unexpired : Text → Bool
  is_unexpired expires =
      if eq_text (dates.to_lowercase (trim expires)) expiry_forever
      then true
      else unwrap_or (map_some (λ expiry. ltb now expiry) (dates.parse_date expires)) true

  unfoldable pub entry_is_banned : BannedIp → Bool
  unfolding is_unexpired
  entry_is_banned entry = unwrap_or (map_some is_unexpired entry.expires) true

  unfoldable pub is_banned : BannedIps → ℕ → Bool
  unfolding get entry_is_banned
  is_banned b ip = unwrap_or (map_some entry_is_banned (get b ip)) false

unfoldable pub collect : List (ℕ × BannedIp) → List BannedIp → List (ℕ × BannedIp)
unfolding insert_ip
collect m [] = m
collect m (entry ∷ rest) = collect (insert_ip entry.ip entry m) rest

-- `load`: `none` stands for an `Err`, of the file or of the JSON.
unfoldable pub load : (Text → Option (List BannedIp)) → Option Text → Option BannedIps
unfolding collect
load from_json none = none
load from_json (some contents) =
    map_some (λ ips. record { ips = collect [] ips }) (from_json contents)

-- The last entry of the file for an address.
abbrev pub last_entry : ℕ → List BannedIp → Option BannedIp
last_entry ip [] = none
last_entry ip (entry ∷ rest) =
    or_else (last_entry ip rest) (if entry.ip == ip then some entry else none)

get_ip-insert_ip :
    (ip k : ℕ) (entry : BannedIp) (m : List (ℕ × BannedIp))
    → get_ip (insert_ip k entry m) ip ≡ (if k == ip then some entry else get_ip m ip)
unfolding get_ip insert_ip
get_ip-insert_ip ip k entry [] = refl
get_ip-insert_ip ip k entry ((j, old) ∷ m) = ground (arith, get_ip-insert_ip ip k entry m)

get_ip-collect :
    (ip : ℕ) (m : List (ℕ × BannedIp)) (entries : List BannedIp)
    → get_ip (collect m entries) ip ≡ or_else (last_entry ip entries) (get_ip m ip)
unfolding collect
get_ip-collect ip m [] = refl
get_ip-collect ip m (entry ∷ rest) = ground (
  arith,
  get_ip-collect ip (insert_ip entry.ip entry m) rest,
  get_ip-insert_ip ip entry.ip entry m,
)

-- What is looked up in a loaded file is the last entry for the address.
pub get-load :
    (from_json : Text → Option (List BannedIp)) (contents : Text) (entries : List BannedIp)
    (b : BannedIps) (ip : ℕ)
    → from_json contents ≡ some entries
    → load from_json (some contents) ≡ some b
    → get b ip ≡ last_entry ip entries
unfolding load get get_ip
get-load from_json contents entries b ip parsed loaded =
    ground (arith, get_ip-collect ip [] entries)
