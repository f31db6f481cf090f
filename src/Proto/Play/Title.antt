-- ===== src/Proto/Play/Title.antt =====
-- src/proto/packets/play/title.rs: the title on a client's screen.
use plexsoftware.Prelude.{
  ℕ, ◌*◌, ◌&&◌, List, [], ◌∷◌, Outcome, ◌>>=◌, Text, is_empty, if◌then◌else◌,
}
use plexsoftware.Prelude.Strings.{lines, join, newline}
use plexsoftware.Types.{Wire}
use plexsoftware.Mc.{ticks_per_second}
use plexsoftware.Proto.Client.{Client, ClientInfo}
use plexsoftware.Proto.Action.{Outbound}
use plexsoftware.Proto.Play.{
  Version, v1_16_3, v1_17, Times, set_title, set_subtitle, set_times_and_display, title,
  set_title_text, set_title_subtitle, set_title_times, PlayCodec, version_of, write_play,
}

-- Twice the ten seconds between keep-alive packets.
abbrev pub display_time : ℕ
display_time = 10 * ticks_per_second * 2

abbrev pub first_line : List Text → Text
first_line [] = []
first_line (l ∷ ls) = l

abbrev pub other_lines : List Text → Text
other_lines [] = []
other_lines (l ∷ ls) = join (newline ∷ []) ls

abbrev pub times : Text → Text → Times
times text subtitle =
    if is_empty text && is_empty subtitle
    then record { fade_in = 10; stay = 70; fade_out = 20 }
    else record { fade_in = 0; stay = display_time; fade_out = 0 }

module _ (w : Wire) (codec : PlayCodec) (client : Client) (info : ClientInfo) where
  unfoldable pub send_v1_16_3 : Text → Text → Outbound → Outcome Outbound
  send_v1_16_3 text subtitle out = do
    one ← write_play w codec client info (λ v. title (set_title text)) out
    two ← write_play w codec client info (λ v. title (set_subtitle subtitle)) one
    write_play w codec client info (λ v. title (set_times_and_display (times text subtitle))) two

  unfoldable pub send_v1_17 : Text → Text → Outbound → Outcome Outbound
  send_v1_17 text subtitle out = do
    one ← write_play w codec client info (λ v. set_title_text text) out
    two ← write_play w codec client info (λ v. set_title_subtitle subtitle) one
    write_play w codec client info (λ v. set_title_times (times text subtitle)) two

  unfoldable pub send_in : Version → Text → Text → Outbound → Outcome Outbound
  unfolding send_v1_16_3 send_v1_17
  send_in v1_16_3 text subtitle out = send_v1_16_3 text subtitle out
  send_in v1_17 text subtitle out = send_v1_17 text subtitle out

  unfoldable pub send_title : Text → Outbound → Outcome Outbound
  unfolding send_in
  send_title text out =
      send_in (version_of codec info) (first_line (lines text)) (other_lines (lines text)) out
