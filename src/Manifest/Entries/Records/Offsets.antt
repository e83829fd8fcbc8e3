-- ===== src/Manifest/Entries/Records/Offsets.antt =====
-- The offsets of a pointer chain read back.
use detour_mod_kit.Base.{◌≡◌, ◌≢◌, refl, false, List, [], ◌∷◌, ◌++◌, some, arith, All}
use detour_mod_kit.Base.Int.{ℤ, pos, negsuc}
use detour_mod_kit.Text.{Text, has_char, split, split-append, split-none}
use detour_mod_kit.Text.Decimal.{InRange}
use detour_mod_kit.Manifest.Numbers.{trim_front, trim, parse_signed, format_signed_hex}
use detour_mod_kit.Manifest.Numbers.RoundTrip.{
  NoBlank, format_signed_hex-NoBlank, trim-NoBlank, parse_signed-hex,
}
use detour_mod_kit.Manifest.Sections.{parse_pieces, parse_offsets}
use detour_mod_kit.Manifest.Entries.{offsets_text}

NoBlank-no_comma : (s : Text) → NoBlank s → has_char b',' s ≡ false
unfolding has_char
NoBlank-no_comma [] h = refl
NoBlank-no_comma (c ∷ s) (h, t) = ground (arith, NoBlank-no_comma s t)

trim_blank : (s : Text) → NoBlank s → trim (b' ' ∷ s) ≡ s
unfolding trim trim_front
trim_blank s h = unfold trim in trim-NoBlank s h

hex-ne-nil : (z : ℤ) → format_signed_hex z ≢ []
unfolding format_signed_hex
hex-ne-nil (pos n) e = cc
hex-ne-nil (negsuc n) e = cc

-- A piece that trims to a text is read as that text.
parse_pieces_step :
    (p s : Text) (z : ℤ) (ps : List Text) (zs : List ℤ)
    → trim p ≡ s
    → s ≢ []
    → parse_signed s ≡ some z
    → parse_pieces ps ≡ some zs
    → parse_pieces (p ∷ ps) ≡ some (z ∷ zs)
unfolding parse_pieces
parse_pieces_step p [] z ps zs e n h k = absurd (n refl)
parse_pieces_step p (c ∷ cs) z ps zs e n h k =
    rw (e, parse_pieces) (rw (h, parse_pieces) (rw (k, parse_pieces)))

hex_piece :
    (p : Text) (z : ℤ) (ps : List Text) (zs : List ℤ)
    → InRange z
    → trim p ≡ format_signed_hex z
    → parse_pieces ps ≡ some zs
    → parse_pieces (p ∷ ps) ≡ some (z ∷ zs)
hex_piece p z ps zs h e k =
    parse_pieces_step p (format_signed_hex z) z ps zs e (hex-ne-nil z) (parse_signed-hex z h) k

-- `p` is the print of a number, with a blank in front or without.
record IsPiece (z : ℤ) (p : Text) : Type 0 where
  no_comma : has_char b',' p ≡ false
  trims : trim p ≡ format_signed_hex z

plain-IsPiece : (z : ℤ) → IsPiece z (format_signed_hex z)
plain-IsPiece z = record {
  no_comma = NoBlank-no_comma (format_signed_hex z) (format_signed_hex-NoBlank z);
  trims = trim-NoBlank (format_signed_hex z) (format_signed_hex-NoBlank z);
}

blank-IsPiece : (z : ℤ) → IsPiece z (b' ' ∷ format_signed_hex z)
unfolding has_char
blank-IsPiece z = record {
  no_comma = NoBlank-no_comma (format_signed_hex z) (format_signed_hex-NoBlank z);
  trims = trim_blank (format_signed_hex z) (format_signed_hex-NoBlank z);
}

last_piece : (z : ℤ) (p : Text) → InRange z → IsPiece z p → parse_offsets p ≡ some (z ∷ [])
unfolding parse_offsets
last_piece z p h k =
    rw (split-none b',' p k.no_comma) (hex_piece p z [] [] h k.trims (unfold parse_pieces in refl))

next_piece :
    (z : ℤ) (p rest : Text) (zs : List ℤ)
    → InRange z
    → IsPiece z p
    → parse_offsets rest ≡ some zs
    → parse_offsets (p ++ b',' ∷ rest) ≡ some (z ∷ zs)
unfolding parse_offsets
next_piece z p rest zs h k e =
    rw (split-append b',' p rest k.no_comma) (hex_piece p z (split b',' rest) zs h k.trims e)

after_comma :
    (z : ℤ) (zs : List ℤ)
    → All InRange (z ∷ zs)
    → parse_offsets (b' ' ∷ offsets_text (z ∷ zs)) ≡ some (z ∷ zs)
unfolding offsets_text
after_comma z [] (h, _) = last_piece z (b' ' ∷ format_signed_hex z) h (blank-IsPiece z)
after_comma z (y ∷ zs) (h, t) =
    next_piece z (b' ' ∷ format_signed_hex z) (b' ' ∷ offsets_text (y ∷ zs)) (y ∷ zs) h
      (blank-IsPiece z) (after_comma y zs t)

pub parse_offsets-offsets_text :
    (zs : List ℤ) → All InRange zs → parse_offsets (offsets_text zs) ≡ some zs
unfolding offsets_text
parse_offsets-offsets_text [] h = unfold parse_offsets split parse_pieces trim in refl
parse_offsets-offsets_text (z ∷ []) (h, _) = last_piece z (format_signed_hex z) h (plain-IsPiece z)
parse_offsets-offsets_text (z ∷ y ∷ zs) (h, t) =
    next_piece z (format_signed_hex z) (b' ' ∷ offsets_text (y ∷ zs)) (y ∷ zs) h (plain-IsPiece z)
      (after_comma y zs t)
