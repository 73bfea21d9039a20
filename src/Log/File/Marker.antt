-- ===== src/Log/File/Marker.antt =====
-- The marker at the start of a boot's log.
use hc32f460jeua_evb.Base.{
  ℕ, ◌≤◌, ◌<◌, ◌≡◌, ◌∙◌, refl, [], ◌∷◌, ◌++◌, arith, if◌then◌else◌, is_nil, length, length-append,
  append_assoc,
}
use hc32f460jeua_evb.Base.Text.{Bytes, codes}
use hc32f460jeua_evb.Log.Decimal.{decimal, length-decimal}
use hc32f460jeua_evb.Log.File.{u64_limit, marker_cap, dot, boot_pieces, format_boot_marker}
use hc32f460jeua_evb.Log.File.Names.{spell, write_pieces-spell}

-- The text of the marker, with no bound on its length.
abbrev pub marker_text : ℕ → Bytes → Bytes
marker_text boot uid =
    (b'\n' ∷ codes "----- boot #")
    ++ (decimal boot
        ++ ((if is_nil uid then [] else dot ++ codes "UID " ++ uid)
            ++ (codes " -----" ++ b'\n' ∷ [])))

spell-boot_pieces : (boot : ℕ) (uid : Bytes) → spell (boot_pieces boot uid) ≡ marker_text boot uid
unfolding spell boot_pieces
spell-boot_pieces boot [] = refl
spell-boot_pieces boot (c ∷ uid) = simp append_assoc

-- The marker is whole for every boot if the identifier has at most 48 bytes (the chip's has 26).
pub format_boot_marker_whole :
    (boot : ℕ) (uid : Bytes)
    → boot < u64_limit
    → length uid ≤ 48
    → format_boot_marker boot uid ≡ marker_text boot uid
unfolding format_boot_marker
format_boot_marker_whole boot uid hb hu =
    write_pieces-spell marker_cap (boot_pieces boot uid) [] (omega (arith, fits))
    ∙ spell-boot_pieces boot uid
  where
    fits : length (spell (boot_pieces boot uid)) ≤ marker_cap
    fits = rw (spell-boot_pieces boot uid) (
        ground (
          arith,
          length-decimal boot 19 (omega arith),
          length-append uid (codes " -----" ++ b'\n' ∷ []),
          length-append (decimal boot) (
              (if is_nil uid then [] else dot ++ codes "UID " ++ uid)
              ++ (codes " -----" ++ b'\n' ∷ [])),
        ))
