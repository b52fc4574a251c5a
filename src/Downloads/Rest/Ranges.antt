-- ===== src/Downloads/Rest/Ranges.antt =====
-- Ranges, as a client asks for them.
use storage_testbench.Base.{
  ℕ, ◌+◌, ◌-◌, ◌≤◌, ◌<◌, min, false, Option, none, some, List, ◌++◌, Text, codes, length, ℤ, pos,
  ◌≡◌,
}
use mathlib.Core.Option
use storage_testbench.Database.State.{Blob}
use storage_testbench.Media.{Bytes}
use storage_testbench.Blobs.{Codecs}
use storage_testbench.Uploads.Resumable.Ranges.{decimal}
use storage_testbench.Downloads.Rest.{int_sub, MediaRequest, decompress_on_download}

-- From one byte to another, from one byte to the end, or the last bytes.
pub data Wanted : Type 0 where
  closed : ℕ → ℕ → Wanted
  open_from : ℕ → Wanted
  last_bytes : ℕ → Wanted

-- The `Range` header that asks for it.
abbrev pub range_header : Wanted → Text
range_header (closed first last) = codes "bytes=" ++ (decimal first ++ (codes "-" ++ decimal last))
range_header (open_from first) = codes "bytes=" ++ (decimal first ++ codes "-")
range_header (last_bytes count) = codes "bytes=-" ++ decimal count

-- Where the bytes begin that are asked for, and where they end.
abbrev pub first_wanted : Wanted → ℕ → ℤ
first_wanted (closed first last) size = pos first
first_wanted (open_from first) size = pos first
first_wanted (last_bytes count) size = int_sub size count

abbrev pub end_wanted : Wanted → ℕ → ℕ
end_wanted (closed first last) size = min (last + 1) size
end_wanted _ size = size

-- There is a byte from which to read, or the bytes are asked for from the end; and the last byte is not
-- before the first.
abbrev pub IsSatisfiable : Wanted → ℕ → Type 0
IsSatisfiable (closed first last) size = (first < size) × (first ≤ last)
IsSatisfiable (open_from first) size = first < size
IsSatisfiable (last_bytes count) size = 0 < count

-- The first byte that is read: behind an object that is shorter than the number of bytes, it is its first.
abbrev pub begin_wanted : Wanted → ℕ → ℕ
begin_wanted (closed first last) size = first
begin_wanted (open_from first) size = first
begin_wanted (last_bytes count) size = size - count

-- A request for a range, without an instruction.
abbrev pub asking : Wanted → Text → MediaRequest
asking w accept_encoding = record {
  range = some (range_header w);
  accept_encoding = accept_encoding;
  instruction = none;
}

module _ (lib : Codecs) (gunzip : Bytes → List Bytes) (w : Wanted) (accept_encoding : Text)
    (o : Blob) (letter : ℕ)
    (stored : decompress_on_download (asking w accept_encoding) o ≡ false) where
  abbrev size : ℕ
  size = length o.media
