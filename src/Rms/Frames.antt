-- ===== src/Rms/Frames.antt =====
-- rms/reader.go and rms/writer.go: what a record is in a file, by the file's format.
use ods.Base.{
  ℕ, ◌+◌, ◌%◌, ◌≡◌, inl, inr, List, [], ◌∷◌, ◌++◌, arith, length, ◌==◌, if◌then◌else◌, Bool-cases,
  length-append,
}
use ods.Base.Word.{u8, ◌>>>◌}
use ods.Ondisk.RecAttr.{
  RecordFormat, undefined, fixed, variable, vfc, stream_crlf, stream_lf, stream_cr,
}
use ods.Rms.Reader.{StreamDelim, delim_lf, delim_cr, delim_crlf}

-- What precedes and follows a record in the file.
abbrev pub length_word : List ℕ → List ℕ
length_word text = u8 (length text) ∷ u8 (length text >>> 8) ∷ []

abbrev pub pad : List ℕ → List ℕ
pad text = if length text % 2 == 0 then [] else 0 ∷ []

abbrev pub frame : List ℕ → List ℕ
frame text = length_word text ++ (text ++ pad text)

abbrev pub delim : StreamDelim → List ℕ
delim delim_lf = 0x0A ∷ []
delim delim_cr = 0x0D ∷ []
delim delim_crlf = 0x0D ∷ 0x0A ∷ []

abbrev pub framed : RecordFormat → List ℕ → List ℕ
framed undefined text = text
framed fixed text = text ++ pad text
framed variable text = frame text
framed vfc text = frame text
framed stream_lf text = text ++ delim delim_lf
framed stream_cr text = text ++ delim delim_cr
framed stream_crlf text = text ++ delim delim_crlf

abbrev pub all_framed : RecordFormat → List (List ℕ) → List ℕ
all_framed format [] = []
all_framed format (text ∷ more) = framed format text ++ all_framed format more

pub length-frame : (text : List ℕ) → length (frame text) ≡ 2 + (length text + length text % 2)
length-frame text = elim (Bool-cases (length text % 2 == 0)) [
  | inl e ↦
      let size : length (text ++ pad text) ≡ length text + 0 = rw e (length-append text []) in
      ground (arith, e, size)
  | inr e ↦
      let size : length (text ++ pad text) ≡ length text + 1 = rw e (length-append text (0 ∷ [])) in
      ground (arith, e, size)
]
