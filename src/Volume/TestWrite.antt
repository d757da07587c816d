-- ===== src/Volume/TestWrite.antt =====
-- A container that is written in memory, and an identification area of zeros, as test data.
use ods.Base.{
  ℕ, ◌≡◌, refl, List, [], true, false, Result, ok, err, read_failed, ltb, ◌==◌, arith,
  if◌then◌else◌, if_so, if_not,
}
use ods.Ondisk.Ident.{Ident}
use ods.Ondisk.Ident.RoundTrip.{IdentInRange}
use ods.Ondisk.Padded.{is_empty}
use ods.Ondisk.Ident.{decode_nul_padded_string}
use ods.Volume.Device.{Container}
use ods.Volume.WriteFile.Marks.{IsContainerWrite}

abbrev pub set_block : Container → ℕ → List ℕ → Result Container
set_block c l block =
    if ltb l c.blocks
    then ok (record c { read_block = λ n. if n == l then ok block else c.read_block n })
    else err read_failed

pub set_block-IsContainerWrite : IsContainerWrite set_block
set_block-IsContainerWrite = record {
  writes = λ c l block inside size.
      let e : ltb l c.blocks ≡ true = ground arith in
      let same : (l == l) ≡ true = ground arith in
      (
        record c { read_block = λ n. if n == l then ok block else c.read_block n },
        if_so _ _ e,
        refl,
        if_so _ _ same,
        (λ n other. let e' : (n == l) ≡ false = ground (arith, other) in if_not _ _ e'),
      );
}

abbrev pub blank_ident : Ident
blank_ident = record {
  filename = [];
  revision = 0;
  creation_date = 0;
  revision_date = 0;
  expiration_date = 0;
  backup_date = 0;
  filename_extension = [];
}

pub blank_ident-IdentInRange : IdentInRange blank_ident
unfolding decode_nul_padded_string is_empty
blank_ident-IdentInRange = record {
  filename = omega arith;
  trimmed = refl;
  revision = omega arith;
  creation_date = omega arith;
  revision_date = omega arith;
  expiration_date = omega arith;
  backup_date = omega arith;
  filename_extension = omega arith;
  trimmed_extension = refl;
}
