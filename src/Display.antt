-- ===== src/Display.antt =====
-- display_device.cpp, config.h: the display mode that a session asks for, from the user's configuration
-- and the client's wishes.
pub mod Parse
pub mod Number
pub mod Size
pub mod Rate
pub mod Remap
pub mod Optimise
mod Tests
use mathlib.Core.Option
use solari.Base.{
  ℕ, zero, suc, ◌^◌, List, [], ◌∷◌, ◌++◌, Option, none, some, Bool, true, false, not, ◌&&◌, ◌||◌,
  leb, ◌==◌, ◌>>=◌, if◌then◌else◌, length,
}
use solari.Base.Int.{ℤ, pos, negsuc}
use solari.Base.Text.{Text, is_digit, value}
use solari.Process.State.{LaunchSession, is_empty}
use solari.Display.Parse.{
  Resolution, Rational, Libraries, span_digits, after_width, match_resolution, after_whole,
  match_rate, stou, resolution_of, rate_of, is_zero, parse_resolution_string, power_of_ten,
  rate_of_digits, parse_refresh_rate_string,
}

pub data ConfigOption : Type 0 where
  disabled verify_only ensure_active ensure_primary ensure_only_display : ConfigOption

-- `resolution_option_e` and `refresh_rate_option_e`.
pub data ModeOption : Type 0 where
  unchanged automatic manual : ModeOption

-- `mode_remapping_entry_t`.
pub record Entry : Type 0 where
  pub requested_resolution : Text
  pub requested_fps : Text
  pub final_resolution : Text
  pub final_refresh_rate : Text

-- `dd_t`, with `output_name`; `hdr_automatic` is `hdr_option`, which has two values.
pub record VideoConfig : Type 0 where
  pub output_name : Text
  pub configuration_option : ConfigOption
  pub resolution_option : ModeOption
  pub manual_resolution : Text
  pub refresh_rate_option : ModeOption
  pub manual_refresh_rate : Text
  pub hdr_automatic : Bool
  pub mixed : List Entry
  pub resolution_only : List Entry
  pub refresh_rate_only : List Entry

pub data DevicePreparation : Type 0 where
  prep_verify prep_active prep_primary prep_only : DevicePreparation

-- `SingleDisplayConfiguration`; `hdr_state` is whether HDR is enabled, if that is to change.
pub record DisplayConfig : Type 0 where
  pub device_id : Text
  pub device_prep : DevicePreparation
  pub hdr_state : Option Bool
  pub resolution : Option Resolution
  pub refresh_rate : Option Rational

unfoldable pub parse_device_prep_option : VideoConfig → Option DevicePreparation
parse_device_prep_option v = elim v.configuration_option [
  | verify_only ↦ some prep_verify
  | ensure_active ↦ some prep_active
  | ensure_primary ↦ some prep_primary
  | ensure_only_display ↦ some prep_only
  | disabled ↦ none
]

unfoldable pub parse_hdr_option : VideoConfig → LaunchSession → Option Bool
parse_hdr_option v s = if v.hdr_automatic then some s.enable_hdr else none

pub data RemappingType : Type 0 where
  both_mapped only_resolution only_rate : RemappingType

abbrev pub is_automatic : ModeOption → Bool
is_automatic unchanged = false
is_automatic automatic = true
is_automatic manual = false

unfoldable pub determine_remapping_type : VideoConfig → Option RemappingType
determine_remapping_type v =
    let auto_resolution = is_automatic v.resolution_option in
    let auto_refresh_rate = is_automatic v.refresh_rate_option in
    if auto_resolution && auto_refresh_rate
    then some both_mapped
    else if auto_resolution
    then some only_resolution
    else if auto_refresh_rate
    then some only_rate
    else none

abbrev pub is_resolution_mapped : RemappingType → Bool
is_resolution_mapped both_mapped = true
is_resolution_mapped only_resolution = true
is_resolution_mapped only_rate = false

abbrev pub is_fps_mapped : RemappingType → Bool
is_fps_mapped both_mapped = true
is_fps_mapped only_resolution = false
is_fps_mapped only_rate = true

abbrev pub remapping_list : VideoConfig → RemappingType → List Entry
remapping_list v both_mapped = v.mixed
remapping_list v only_resolution = v.resolution_only
remapping_list v only_rate = v.refresh_rate_only

-- `parsed_remapping_entry_t`.
pub record Parsed : Type 0 where
  pub requested_resolution : Option Resolution
  pub requested_fps : Option Rational
  pub final_resolution : Option Resolution
  pub final_refresh_rate : Option Rational

abbrev pub is_some {ℓ} : {A : Type ℓ} → Option A → Bool
is_some none = false
is_some (some x) = true

-- What the loop over the entries does with one.
pub data Verdict : Type 0 where
  invalid skipped : Verdict
  applied : Parsed → Verdict

-- `first`, if there is one, and else `other`.
abbrev pub or_else {ℓ} : {A : Type ℓ} → Option A → Option A → Option A
or_else none other = other
or_else (some x) other = some x

-- The client's resolution, if neither number is negative.
abbrev pub client_resolution : ℤ → ℤ → Option Resolution
client_resolution (pos w) (pos h) = some (record { width = w; height = h })
client_resolution (pos w) (negsuc h) = none
client_resolution (negsuc w) h = none

abbrev pub client_rate : ℤ → Option Rational
client_rate (pos f) = some (record { numerator = f; denominator = 1 })
client_rate (negsuc f) = none

-- A value that was parsed and is not empty.
abbrev pub specified {ℓ} : {A : Type ℓ} → Option (Option A) → Option A
specified none = none
specified (some value) = value

abbrev pub with_resolution : DisplayConfig → Option Resolution → Option DisplayConfig
with_resolution c none = none
with_resolution c (some r) = some (record c { resolution = some r })

abbrev pub with_refresh_rate : DisplayConfig → Option Rational → Option DisplayConfig
with_refresh_rate c none = none
with_refresh_rate c (some r) = some (record c { refresh_rate = some r })

module _ (lib : Libraries) where
  unfoldable pub parse_resolution_option :
      VideoConfig → LaunchSession → DisplayConfig → Option DisplayConfig
  parse_resolution_option v s c = elim v.resolution_option [
    | automatic ↦
        if not s.enable_sops then some c else with_resolution c (client_resolution s.width s.height)
    | manual ↦
        if not s.enable_sops
        then some c
        else with_resolution c (specified (parse_resolution_string lib v.manual_resolution))
    | unchanged ↦ some c
  ]

  unfoldable pub parse_refresh_rate_option :
      VideoConfig → LaunchSession → DisplayConfig → Option DisplayConfig
  parse_refresh_rate_option v s c = elim v.refresh_rate_option [
    | automatic ↦ with_refresh_rate c (client_rate s.fps)
    | manual ↦
        with_refresh_rate c (specified (parse_refresh_rate_string lib v.manual_refresh_rate true))
    | unchanged ↦ some c
  ]

  unfoldable pub parse_remapping_entry : Entry → RemappingType → Option Parsed
  parse_remapping_entry e type = do
    requested_resolution ← resolution_field type e.requested_resolution
    final_resolution ← resolution_field type e.final_resolution
    requested_fps ← rate_field type e.requested_fps false
    final_refresh_rate ← rate_field type e.final_refresh_rate true
    some (record {
      requested_resolution = requested_resolution;
      requested_fps = requested_fps;
      final_resolution = final_resolution;
      final_refresh_rate = final_refresh_rate;
    })
    where
      resolution_field : RemappingType → Text → Option (Option Resolution)
      resolution_field type t =
          if is_resolution_mapped type then parse_resolution_string lib t else some none

      rate_field : RemappingType → Text → Bool → Option (Option Rational)
      rate_field type t dotted =
          if is_fps_mapped type then parse_refresh_rate_string lib t dotted else some none

  -- Whether a requested value, if there is one, differs from the configured one.
  abbrev pub other_resolution : Option Resolution → Option Resolution → Bool
  other_resolution none configured = false
  other_resolution (some r) none = true
  other_resolution (some r) (some s) = not (lib.same_resolution r s)

  abbrev pub other_rate : Option Rational → Option Rational → Bool
  other_rate none configured = false
  other_rate (some r) none = true
  other_rate (some r) (some s) = not (lib.same_rate r s)

  -- An entry that was parsed.
  unfoldable pub verdict_of : LaunchSession → DisplayConfig → Parsed → Verdict
  verdict_of s c e =
      if not (is_some e.final_resolution) && not (is_some e.final_refresh_rate)
      then invalid
      else if not s.enable_sops && (is_some e.requested_resolution || is_some e.final_resolution)
      then skipped
      else if other_resolution e.requested_resolution c.resolution
      then skipped
      else if other_rate e.requested_fps c.refresh_rate
      then skipped
      else applied e

  unfoldable pub verdict : LaunchSession → DisplayConfig → RemappingType → Entry → Verdict
  verdict s c type e = elim (parse_remapping_entry e type) [
    | none ↦ invalid
    | some parsed ↦ verdict_of s c parsed
  ]

  unfoldable pub remap_entries :
      LaunchSession → DisplayConfig → RemappingType → List Entry → Option DisplayConfig
  remap_entries s c type [] = some c
  remap_entries s c type (e ∷ es) = elim (verdict s c type e) [
    | invalid ↦ none
    | skipped ↦ remap_entries s c type es
    | applied p ↦ some (record c {
      resolution = or_else p.final_resolution c.resolution;
      refresh_rate = or_else p.final_refresh_rate c.refresh_rate;
    })
  ]

  unfoldable pub remap_display_mode_if_needed :
      VideoConfig → LaunchSession → DisplayConfig → Option DisplayConfig
  remap_display_mode_if_needed v s c = elim (determine_remapping_type v) [
    | none ↦ some c
    | some type ↦ remap_entries s c type (remapping_list v type)
  ]

-- `parse_configuration` on other systems than macOS.
pub data Outcome : Type 0 where
  failed_to_parse configuration_disabled : Outcome
  configured : DisplayConfig → Outcome

abbrev pub outcome_of : Option DisplayConfig → Outcome
outcome_of none = failed_to_parse
outcome_of (some c) = configured c

unfoldable pub parse_configuration : Libraries → VideoConfig → LaunchSession → Outcome
parse_configuration lib v s = elim (parse_device_prep_option v) [
  | none ↦ configuration_disabled
  | some prep ↦
      let plain : DisplayConfig = record {
        device_id = v.output_name;
        device_prep = prep;
        hdr_state = parse_hdr_option v s;
        resolution = none;
        refresh_rate = none;
      } in
      outcome_of (do
        c ← parse_resolution_option lib v s plain
        d ← parse_refresh_rate_option lib v s c
        remap_display_mode_if_needed lib v s d)
]
