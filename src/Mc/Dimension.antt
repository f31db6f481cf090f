-- ===== src/Mc/Dimension.antt =====
-- src/mc/dimension.rs: the dimension of the lobby. Tags of NBT are the crate `nbt`'s, so they are
-- kept by their encoding and the methods are parameters, in `Nbt`; so are the two tags that the
-- build embeds. A float is one of the whole numbers that the code writes.
use plexsoftware.Prelude.{
  ℕ, List, [], ◌∷◌, Option, none, some, Bool, Outcome, ok, ◌>>=◌, Text, eq_text, find, map_some,
  and_then, unwrap_or, or_else, unwrap,
}
use plexsoftware.Prelude.Int.{ℤ, pos}
use plexsoftware.Prelude.Strings.{codes}

abbrev pub Tag : Type 0
Tag = List ℕ

pub record Nbt : Type 0 where
  pub get_compound_tag : Tag → Text → Option Tag
  pub get_compound_tag_vec : Tag → Text → Option (List Tag)
  pub get_str : Tag → Text → Option Text
  pub insert_i8 : Text → ℤ → Tag → Tag
  pub insert_i32 : Text → ℤ → Tag → Tag
  pub insert_i64 : Text → ℤ → Tag → Tag
  pub insert_f32 : Text → ℕ → Tag → Tag
  pub insert_f64 : Text → ℕ → Tag → Tag
  pub insert_str : Text → Text → Tag → Tag
  pub default_dimension_codec : Tag
  pub lobby_default_dimension : Tag

abbrev pub preferred : List Text
preferred =
    codes "minecraft:the_end" ∷ codes "minecraft:the_nether" ∷ codes "minecraft:the_overworld" ∷ []

module _ (nbt : Nbt) where
  unfoldable pub is_named : Text → Tag → Bool
  is_named name d =
      unwrap_or (map_some (λ n. eq_text n name) (nbt.get_str d (codes "name"))) Bool.false

  unfoldable pub element_of : Tag → Option Tag
  element_of dimension = nbt.get_compound_tag dimension (codes "element")

  -- The loop over the preferred names.
  unfoldable pub preferred_dimension : List Tag → List Text → Option Tag
  unfolding is_named element_of
  preferred_dimension dimensions [] = none
  preferred_dimension dimensions (name ∷ names) =
      or_else (and_then (find (is_named name) dimensions) element_of)
        (preferred_dimension dimensions names)

  unfoldable pub first_dimension : List Tag → Option Tag
  unfolding element_of
  first_dimension [] = none
  first_dimension (dimension ∷ dimensions) = element_of dimension

  -- Without the vector the code panics.
  unfoldable pub lobby_base_dimension : Tag → Outcome Tag
  unfolding preferred_dimension first_dimension
  lobby_base_dimension dimension_types = do
    dimensions ← unwrap (nbt.get_compound_tag_vec dimension_types (codes "value"))
    ok (
        unwrap_or (or_else (preferred_dimension dimensions preferred) (first_dimension dimensions))
          nbt.lobby_default_dimension)

  -- The insertions, the first one innermost.
  unfoldable pub lobby_settings : Tag → Tag
  lobby_settings base = nbt.insert_i8 (codes "has_ceiling") (pos 0) (
      nbt.insert_i8 (codes "ultrawarm") (pos 0) (
        nbt.insert_f64 (codes "coordinate_scale") 1 (
          nbt.insert_i32 (codes "logical_height") (pos 16) (
            nbt.insert_i32 (codes "height") (pos 16) (
              nbt.insert_i32 (codes "min_y") (pos 0) (
                nbt.insert_i8 (codes "has_raids") (pos 0) (
                  nbt.insert_i64 (codes "fixed_time") (pos 0) (
                    nbt.insert_str (codes "effects") (codes "minecraft:the_end") (
                      nbt.insert_i8 (codes "bed_works") (pos 0) (
                        nbt.insert_i8 (codes "has_skylight") (pos 0) (
                          nbt.insert_i8 (codes "respawn_anchor_works") (pos 0) (
                            nbt.insert_f32 (codes "ambient_light") 0
                              (nbt.insert_i8 (codes "piglin_safe") (pos 1) base)))))))))))))

  unfoldable pub adapted : Option Tag → Outcome Tag
  unfolding lobby_base_dimension lobby_settings
  adapted none = ok nbt.lobby_default_dimension
  adapted (some dimension_types) = do
    base ← lobby_base_dimension dimension_types
    ok (lobby_settings base)

  unfoldable pub lobby_dimension : Tag → Outcome Tag
  unfolding adapted
  lobby_dimension codec = adapted (nbt.get_compound_tag codec (codes "minecraft:dimension_type"))
