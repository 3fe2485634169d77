-- ===== src/Common/BinaryBuffer/Tests.antt =====
-- Runs of binary_buffer.h.
use stxxl.Prelude.{ℕ, ◌≡◌, refl, List, [], ◌∷◌, some, arith}
use stxxl.Common.BinaryBuffer.{
  BinaryBuffer, varint_bytes, varint64_bytes, put_varint, put_varint64, put_string, dynalloc,
}
use stxxl.Common.BinaryBuffer.Growth.{IsValid, Roomy, dynalloc-Roomy}
use stxxl.Common.BinaryBuffer.Reader.{get_varint, get_varint64, get_string}
use stxxl.Common.BinaryBuffer.RoundTrip.{
  RoundTrips, put_varint-RoundTrips, put_varint64-RoundTrips, put_string-RoundTrips,
}

-- Three bytes in a full buffer.
abbrev full : BinaryBuffer
full = record { bytes = 1 ∷ 2 ∷ 3 ∷ []; capacity = 3 }

full-IsValid : IsValid full
full-IsValid = omega arith

abbrev text : List ℕ
text = 104 ∷ 105 ∷ []

bytes_300 : varint_bytes 300 ≡ 172 ∷ 2 ∷ []
unfolding varint_bytes
bytes_300 = refl

dynalloc-Roomy_example : (b' : BinaryBuffer) × (dynalloc 600 full ≡ some b') × Roomy 600 full b'
dynalloc-Roomy_example = dynalloc-Roomy 600 full (omega arith)

put_varint-RoundTrips_example : RoundTrips (put_varint 300) get_varint 300 full
unfolding varint_bytes
put_varint-RoundTrips_example =
    put_varint-RoundTrips 300 full (omega arith) full-IsValid (omega arith)

put_varint64-RoundTrips_example :
    RoundTrips (put_varint64 1099511627776) get_varint64 1099511627776 full
unfolding varint64_bytes
put_varint64-RoundTrips_example =
    put_varint64-RoundTrips 1099511627776 full (omega arith) full-IsValid (omega arith)

put_string-RoundTrips_example : RoundTrips (put_string text) get_string text full
unfolding varint_bytes
put_string-RoundTrips_example =
    put_string-RoundTrips text full (omega arith) full-IsValid (omega arith)
