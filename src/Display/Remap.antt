-- ===== src/Display/Remap.antt =====
-- display_device.cpp: which entry of a list remaps the display mode, and what that may change.
use solari.Base.{
  ◌≡◌, refl, sym, ◌∙◌, subst, List, [], ◌∷◌, none, some, true, false, not, ◌&&◌, ◌||◌, ◌⊎◌, ◌↔◌,
  arith, Bool-cases, Option-cases, inl, inr,
}
use solari.Process.State.{LaunchSession}
use solari.Display.Parse.{Libraries}
use solari.Display.{
  Entry, DisplayConfig, Parsed, RemappingType, invalid, skipped, applied, is_some, or_else,
  other_resolution, other_rate, parse_remapping_entry, verdict_of, verdict, remap_entries,
}

abbrev pub remapped : DisplayConfig → Parsed → DisplayConfig
remapped c p = record c {
  resolution = or_else p.final_resolution c.resolution;
  refresh_rate = or_else p.final_refresh_rate c.refresh_rate;
}

abbrev pub HasFinal : Parsed → Type 0
HasFinal p = (is_some p.final_resolution || is_some p.final_refresh_rate) ≡ true

-- Whether a parsed entry applies to a display mode: a resolution stands in it only if the client lets the
-- host optimise its settings, and what it requests is what is configured.
pub record Matches (lib : Libraries) (s : LaunchSession) (c : DisplayConfig) (p : Parsed)
    : Type 0 where
  pub optimised :
      (s.enable_sops ≡ true)
      ⊎ ((is_some p.requested_resolution ≡ false) × (is_some p.final_resolution ≡ false))
  pub resolution : other_resolution lib p.requested_resolution c.resolution ≡ false
  pub rate : other_rate lib p.requested_fps c.refresh_rate ≡ false

-- The first entry that applies gives its final values; the entries before it can be parsed, and have a
-- final value, but do not apply.
pub data Remapped (lib : Libraries) (s : LaunchSession) (c : DisplayConfig) (type : RemappingType)
    : List Entry → DisplayConfig → Type 0 where
  unmatched : Remapped lib s c type [] c
  passed :
      {e : Entry} {es : List Entry} {d : DisplayConfig} (p : Parsed)
      → parse_remapping_entry lib e type ≡ some p
      → HasFinal p
      → (Matches lib s c p → ⊥)
      → Remapped lib s c type es d
      → Remapped lib s c type (e ∷ es) d
  first :
      {e : Entry} {es : List Entry} (p : Parsed)
      → parse_remapping_entry lib e type ≡ some p
      → HasFinal p
      → Matches lib s c p
      → Remapped lib s c type (e ∷ es) (remapped c p)

-- What becomes of an entry with a final value.
verdict_of-cases :
    (lib : Libraries) (s : LaunchSession) (c : DisplayConfig) (p : Parsed)
    → HasFinal p
    → ((verdict_of lib s c p ≡ applied p) × Matches lib s c p)
      ⊎ ((verdict_of lib s c p ≡ skipped) × (Matches lib s c p → ⊥))
unfolding verdict_of
verdict_of-cases lib s c p final =
    elim (Bool-cases
      (not s.enable_sops && (is_some p.requested_resolution || is_some p.final_resolution))) [
        | inl a ↦ inr (ground arith, λ m. ground (arith, m.optimised))
        | inr a ↦ elim (Bool-cases (other_resolution lib p.requested_resolution c.resolution)) [
          | inl b ↦ inr (ground arith, λ m. ground (arith, m.resolution))
          | inr b ↦ elim (Bool-cases (other_rate lib p.requested_fps c.refresh_rate)) [
            | inl d ↦ inr (ground arith, λ m. ground (arith, m.rate))
            | inr d ↦
                inl (ground arith, record { optimised = ground arith; resolution = b; rate = d })
          ]
        ]
      ]

verdict_of-invalid :
    (lib : Libraries) (s : LaunchSession) (c : DisplayConfig) (p : Parsed)
    → (is_some p.final_resolution || is_some p.final_refresh_rate) ≡ false
    → verdict_of lib s c p ≡ invalid
unfolding verdict_of
verdict_of-invalid lib s c p e = ground arith

module _ (lib : Libraries) (s : LaunchSession) (c : DisplayConfig) (type : RemappingType) where
  verdict-parsed :
      (e : Entry) (p : Parsed)
      → parse_remapping_entry lib e type ≡ some p
      → verdict lib s c type e ≡ verdict_of lib s c p
  unfolding verdict
  verdict-parsed e p q = rw (q, verdict) refl

  entries-applied :
      (e : Entry) (es : List Entry) (p : Parsed)
      → verdict lib s c type e ≡ applied p
      → remap_entries lib s c type (e ∷ es) ≡ some (remapped c p)
  unfolding remap_entries
  entries-applied e es p v = rw (v, remap_entries) refl

  entries-skipped :
      (e : Entry) (es : List Entry)
      → verdict lib s c type e ≡ skipped
      → remap_entries lib s c type (e ∷ es) ≡ remap_entries lib s c type es
  unfolding remap_entries
  entries-skipped e es v = rw (v, remap_entries) refl

  entries-invalid :
      (e : Entry) (es : List Entry)
      → verdict lib s c type e ≡ invalid
      → remap_entries lib s c type (e ∷ es) ≡ none
  unfolding remap_entries
  entries-invalid e es v = rw (v, remap_entries) refl

  verdict-unparsed :
      (e : Entry) → parse_remapping_entry lib e type ≡ none → verdict lib s c type e ≡ invalid
  unfolding verdict
  verdict-unparsed e q = rw (q, verdict) refl

  Remapped-entries :
      (es : List Entry) (d : DisplayConfig)
      → remap_entries lib s c type es ≡ some d
      → Remapped lib s c type es d
  unfolding remap_entries
  Remapped-entries [] d e = subst (Remapped lib s c type []) (ground arith) unmatched
  Remapped-entries (x ∷ es) d e = elim (Option-cases (parse_remapping_entry lib x type)) [
    | inl q ↦ absurd (ground (arith, entries-invalid x es (verdict-unparsed x q)))
    | inr (p, q) ↦
        let same = verdict-parsed x p q in
        elim (Bool-cases (is_some p.final_resolution || is_some p.final_refresh_rate)) [
          | inr f ↦
              let bad = entries-invalid x es (same ∙ verdict_of-invalid lib s c p f) in
              absurd (ground arith)
          | inl f ↦ elim (verdict_of-cases lib s c p f) [
            | inl (v, m) ↦
                let there : remapped c p ≡ d = ground (arith, entries-applied x es p (same ∙ v)) in
                subst (Remapped lib s c type (x ∷ es)) there (first p q f m)
            | inr (v, m) ↦
                passed p q f m (Remapped-entries es d (sym (entries-skipped x es (same ∙ v)) ∙ e))
          ]
        ]
  ]

  entries-Remapped :
      (es : List Entry) (d : DisplayConfig)
      → Remapped lib s c type es d
      → remap_entries lib s c type es ≡ some d
  unfolding remap_entries
  entries-Remapped [] d unmatched = refl
  entries-Remapped (x ∷ es) d (passed p q f m r) = elim (verdict_of-cases lib s c p f) [
    | inl (v, n) ↦ absurd (m n)
    | inr (v, n) ↦ entries-skipped x es (verdict-parsed x p q ∙ v) ∙ entries-Remapped es d r
  ]
  entries-Remapped (x ∷ es) d (first p q f m) = elim (verdict_of-cases lib s c p f) [
    | inl (v, n) ↦ entries-applied x es p (verdict-parsed x p q ∙ v)
    | inr (v, n) ↦ absurd (n m)
  ]

-- The remapping of a list of entries succeeds with a display mode exactly if it is that of the first
-- entry that applies, or the mode as it was where none does; the entries before can be parsed, have a
-- final value, and do not apply.
pub remap_entries-Remapped :
    (lib : Libraries) (s : LaunchSession) (c : DisplayConfig) (type : RemappingType)
    (es : List Entry) (d : DisplayConfig)
    → (remap_entries lib s c type es ≡ some d) ↔ Remapped lib s c type es d
remap_entries-Remapped lib s c type es d =
    (Remapped-entries lib s c type es d, entries-Remapped lib s c type es d)
