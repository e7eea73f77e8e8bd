-- ===== src/Tests/Numbers.antt =====
-- The number " 07", padded to three digits.
use kavita_ingest.Prelude.{◌≡◌, refl, some, [], ◌∷◌, arith}
use kavita_ingest.Sequences.{
  Text, SequenceNumber, number_of, parse, render, strip, drop_start, drop_end, span,
}
use kavita_ingest.Sequences.RoundTrip.{parse-render}

abbrev seven : Text
seven = 32 ∷ 48 ∷ 55 ∷ []

abbrev seven_read : SequenceNumber
seven_read = number_of (48 ∷ 55 ∷ []) (48 ∷ 55 ∷ [])

seven_parsed : parse seven ≡ some seven_read
unfolding parse strip drop_start drop_end span
seven_parsed = refl

parse-render_example :
    (t : SequenceNumber) × (parse (render 3 seven_read) ≡ some t)
    × (t.kind ≡ seven_read.kind)
    × (t.normalized ≡ seven_read.normalized)
    × (t.sort_key ≡ seven_read.sort_key)
parse-render_example = parse-render seven seven_read 3 seven_parsed refl (omega arith)
