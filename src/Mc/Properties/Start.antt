-- ===== src/Mc/Properties/Start.antt =====
-- What the start action sets in `server.properties` (src/action/start.rs).
use plexsoftware.Prelude.{
  append-All, ℕ, ◌≡◌, ◌≢◌, refl, ◌∙◌, Bool, true, false, ◌&&◌, ◌||◌, leb, ◌==◌, Bool-cases, inl,
  inr, [], ◌∷◌, ◌++◌, none, some, Text, All, eq_text, eq_text_iff, arith,
}
use plexsoftware.Prelude.Strings.{codes, trim, split_once, starts_with, newline}
use plexsoftware.Prelude.Strings.Lines.{IsLine, IsLine-split_once}
use plexsoftware.Prelude.Strings.Trim.{head}
use plexsoftware.Config.{Config, server_directory}
use plexsoftware.Mc.Properties.{Changes, remove_entry, read_property}
use plexsoftware.Mc.Properties.Entries.{IsKey}
use plexsoftware.Mc.Properties.Printing.{OnOneLine}
use plexsoftware.Mc.Properties.RoundTrip.{read_property-rewrite_file}
use plexsoftware.Mc.Properties.Files.{
  rewrite_dir, prepare_rcon, base_changes, lobby_changes, rcon_changes, has_lobby, changes_for,
  rewrite_server_properties, invoke,
}

-- The characters of the keys that the code writes.
abbrev pub all_lower : Text → Bool
all_lower [] = true
all_lower (c ∷ s) = ((leb b'a' c && leb c b'z') || c == b'-' || c == b'.') && all_lower s

not_marked : (key : Text) → starts_with b'#' key ≡ false → head key ≢ some b'#'
not_marked [] e same = ground (arith, same)
not_marked (c ∷ key) e same = ground (arith, e, same)

module _ (to_lowercase : Text → Text) (show_ip show_number : ℕ → Text) where
  -- Lowering keeps the mark of a comment and the letters that are in lower case already, and what
  -- is shown of numbers and addresses is on one line.
  pub record IsShown : Type 0 where
    pub lower_comment : (s : Text) → to_lowercase (b'#' ∷ s) ≡ b'#' ∷ to_lowercase s
    pub lower_lower : (s : Text) → all_lower s ≡ true → to_lowercase s ≡ s
    pub ip_line : (n : ℕ) → IsLine (show_ip n)
    pub number_line : (n : ℕ) → IsLine (show_number n)

  module _ (shown : IsShown) where
    Clean : Text × Text → Type 0
    Clean (key, value) = IsKey to_lowercase key × IsLine key × IsLine value

    literal :
        (key value : Text)
        → all_lower key ≡ true
        → split_once b'=' key ≡ none
        → split_once newline key ≡ none
        → trim key ≡ key
        → starts_with b'#' key ≡ false
        → IsLine value
        → Clean (key, value)
    unfolding Clean
    literal key value lower plain one trimmed unmarked line = (
      record {
        plain = plain;
        trimmed = trimmed;
        lower = shown.lower_lower key lower;
        no_comment = not_marked key unmarked;
      },
      IsLine-split_once key one,
      line,
    )

    base_changes-Clean :
        (config : Config) → All Clean (base_changes to_lowercase show_ip show_number config)
    unfolding split_once trim
    base_changes-Clean config = (
      literal (codes "server-ip") _ refl refl refl refl refl
          (shown.ip_line config.server.address.ip),
      (
        literal (codes "server-port") _ refl refl refl refl refl
            (shown.number_line config.server.address.port),
        (
          literal (codes "query.port") _ refl refl refl refl refl
              (shown.number_line config.server.address.port),
          (
            literal (codes "enable-status") _ refl refl refl refl refl
                (IsLine-split_once (codes "true") refl),
            (
              literal (codes "view-distance") _ refl refl refl refl refl
                  (IsLine-split_once (codes "5") refl),
              (
                literal (codes "simulation-distance") _ refl refl refl refl refl
                    (IsLine-split_once (codes "5") refl),
                (
                  literal (codes "spawn-protection") _ refl refl refl refl refl
                      (IsLine-split_once (codes "0") refl),
                  tt,
                ),
              ),
            ),
          ),
        ),
      ),
    )

    lobby_changes-Clean :
        (config : Config) → All Clean (lobby_changes to_lowercase show_ip show_number config)
    unfolding split_once trim
    lobby_changes-Clean config = elim (Bool-cases (has_lobby to_lowercase config.join.methods)) [
      | inl there ↦ simp there (
        literal (codes "network-compression-threshold") _ refl refl refl refl refl
            (shown.number_line 256),
        tt,
      )
      | inr elsewhere ↦ simp elsewhere tt
    ]

    rcon_changes-Clean :
        (config : Config)
        → IsLine config.rcon.password
        → All Clean (rcon_changes to_lowercase show_ip show_number config)
    unfolding split_once trim
    rcon_changes-Clean config line = elim (Bool-cases config.rcon.enabled) [
      | inl on ↦ simp on (
        literal (codes "rcon.port") _ refl refl refl refl refl (shown.number_line config.rcon.port),
        (
          literal (codes "rcon.password") _ refl refl refl refl refl line,
          (
            literal (codes "enable-rcon") _ refl refl refl refl refl
                (IsLine-split_once (codes "true") refl),
            tt,
          ),
        ),
      )
      | inr off ↦ simp off tt
    ]

    changes_for-Clean :
        (config : Config)
        → IsLine config.rcon.password
        → All Clean (changes_for to_lowercase show_ip show_number config)
    unfolding changes_for
    changes_for-Clean config line =
        append-All Clean
          (base_changes to_lowercase show_ip show_number config
            ++ lobby_changes to_lowercase show_ip show_number config)
          (rcon_changes to_lowercase show_ip show_number config)
          (append-All Clean (base_changes to_lowercase show_ip show_number config)
            (lobby_changes to_lowercase show_ip show_number config) (base_changes-Clean config)
            (lobby_changes-Clean config))
          (rcon_changes-Clean config line)

    changes-IsKey :
        (changes : Changes)
        → All Clean changes
        → All (λ (c : Text × Text). IsKey to_lowercase c.0) changes
    unfolding Clean
    changes-IsKey [] all = tt
    changes-IsKey ((key, value) ∷ changes) (clean, all) = (clean.0, changes-IsKey changes all)

    changes-OnOneLine : (changes : Changes) → All Clean changes → All OnOneLine changes
    unfolding Clean
    changes-OnOneLine [] all = tt
    changes-OnOneLine ((key, value) ∷ changes) (clean, all) =
        ((clean.1, clean.2), changes-OnOneLine changes all)

    listed-IsKey :
        (k v : Text) (changes : Changes)
        → All (λ (c : Text × Text). IsKey to_lowercase c.0) changes
        → (remove_entry k changes).0 ≡ some v
        → IsKey to_lowercase k
    unfolding remove_entry
    listed-IsKey k v [] all e = ground (arith, e)
    listed-IsKey k v ((j, value) ∷ changes) (clean, all) e = elim (Bool-cases (eq_text j k)) [
      | inl is ↦ rw (← (eq_text_iff j k).0 is) clean
      | inr isnt ↦ listed-IsKey k v changes all (simp isnt at e)
    ]

    prepare_rcon_keeps :
        (password : Text) (config : Config)
        → ((prepare_rcon to_lowercase password config).rewrite_server_properties
            ≡ config.rewrite_server_properties)
          × (server_directory (prepare_rcon to_lowercase password config) ≡ server_directory config)
    unfolding prepare_rcon
    prepare_rcon_keeps password config = elim (Bool-cases config.rcon.enabled) [
      | inl on ↦ elim (Bool-cases config.rcon.randomize_password) [
        | inl random ↦ simp (on, random) (refl, refl)
        | inr given ↦ simp (on, given) (refl, refl)
      ]
      | inr off ↦ simp off (refl, refl)
    ]

    -- Behind the start action `server.properties` reads, for every key that the configuration asks for, as the value
    -- asked for, trimmed, if the rewriting is on, a directory is configured, the file can be read and written, and
    -- the password holds no end of a line.
    pub read_property-invoke :
        (password directory contents k v : Text) (config : Config)
        → config.rewrite_server_properties ≡ true
        → server_directory config ≡ some directory
        → IsLine (prepare_rcon to_lowercase password config).rcon.password
        → (remove_entry k (
            changes_for to_lowercase show_ip show_number
              (prepare_rcon to_lowercase password config))).0
          ≡ some v
        → read_property to_lowercase
            (invoke to_lowercase show_ip show_number password config (record {
              is_dir = true;
              properties = record { is_file = true; contents = some contents };
              writable = true;
            })).1.properties
            k
          ≡ some (trim v)
    unfolding invoke rewrite_server_properties rewrite_dir
    read_property-invoke password directory contents k v config on there line listed =
        let prepared = prepare_rcon to_lowercase password config in
        let (same_flag, same_dir) = prepare_rcon_keeps password config in
        let clean = changes_for-Clean prepared line in
        let changes = changes_for to_lowercase show_ip show_number prepared in
        let keys = changes-IsKey changes clean in
        simp (same_flag ∙ on, same_dir ∙ there)
          (read_property-rewrite_file to_lowercase shown.lower_comment k v changes
            (listed-IsKey k v changes keys listed) keys (changes-OnOneLine changes clean) listed
            contents)
