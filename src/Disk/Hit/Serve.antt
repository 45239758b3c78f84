-- ===== src/Disk/Hit/Serve.antt =====
-- A whole run of `read_body`, as the proxy makes it: until the end is reported, or an error.
use edge_cdn_store.Common.{
  ℕ, zero, suc, ◌-◌, ◌<◌, ◌≡◌, refl, [], ◌++◌, some, none, Option, Result, ok, err, arith, min,
  Result-cases, is_ok, true, inl, inr,
}
use edge_cdn_store.Common.State.{Failure}
use edge_cdn_store.Disk.Files.{Bytes, FileSystem, IsLawful, IsReliable}
use edge_cdn_store.Disk.World.{World}
use edge_cdn_store.Disk.Hit.{DiskHitHandler, Stepped, read_body}
use edge_cdn_store.Disk.Hit.Read.{next_pos, InSync, remaining, read_body-some, read_body-none}

module _ (F : FileSystem) where
  abbrev pub prepend : Bytes → Result Failure Bytes → Result Failure Bytes
  prepend b (ok bs) = ok (b ++ bs)
  prepend b (err x) = err x

  abbrev pub prepend_to : Bytes → Option (Stepped F Bytes) → Option (Stepped F Bytes)
  prepend_to b none = none
  prepend_to b (some (r, h, w)) = some (prepend b r, h, w)

  -- `none` means that the fuel ran out.
  unfoldable pub serve_all : ℕ → DiskHitHandler F → World F → Option (Stepped F Bytes)
  serve_all zero h w = none
  serve_all (suc fuel) h w =
      let d = read_body F h w in
      elim d.0 [
        | err x ↦ some (err x, d.1, d.2)
        | ok none ↦ some (ok [], d.1, d.2)
        | ok (some b) ↦ prepend_to b (serve_all fuel d.1 d.2)
      ]

  -- The run has ended, and if it ended well it gave these bytes.
  pub record Served (o : Option (Stepped F Bytes)) (bytes : Bytes) : Type 0 where
    pub last : Stepped F Bytes
    pub ended : o ≡ some last
    pub right : (bs : Bytes) → last.0 ≡ ok bs → bs ≡ bytes

module _ (F : FileSystem) (L : IsLawful F) where
  Served-prepend_to :
      (b : Bytes) (o : Option (Stepped F Bytes)) (bytes : Bytes)
      → Served F o bytes
      → Served F (prepend_to F b o) (b ++ bytes)
  Served-prepend_to b none bytes s = cc (s.ended)
  Served-prepend_to b (some (ok bs, h, w)) bytes s = record {
    last = (ok (b ++ bs), h, w);
    ended = refl;
    right = λ cs e. ground (arith, s.right bs, s.ended);
  }
  Served-prepend_to b (some (err x, h, w)) bytes s = record {
    last = (err x, h, w);
    ended = refl;
    right = λ cs e. cc;
  }

  reached : {A B C : Type 0} (d : A × B × C) {a : A} → d.0 ≡ a → d ≡ (a, d.1, d.2)
  reached d e i = (e i, d.1, d.2)

  -- Reading from a handler in step with its file ends, and the chunks joined are the range.
  pub serve_all_ok :
      (fuel : ℕ) (h : DiskHitHandler F) (w : World F)
      → InSync F h w
      → h.range_end - next_pos F h < fuel
      → Served F (serve_all F fuel h w) (remaining F h w)
  unfolding serve_all
  serve_all_ok zero h w s m = absurd (omega arith)
  serve_all_ok (suc fuel) h w s m = elim (Result-cases (read_body F h w).0) [
    | inl (none, done) ↦
        let d = read_body F h w in
        let (_, empty) = read_body-none F L h d.1 w d.2 s (reached d done) in
        rw (done, serve_all) (record { last = (ok [], d.1, d.2); ended = refl; right = λ bs e. cc })
    | inl (some b, more) ↦
        let d = read_body F h w in
        let (sync, next, some_bytes, small, bound, moved) =
          read_body-some F L h d.1 w d.2 b s (reached d more) in
        rw (more, serve_all, next)
          (Served-prepend_to b _ _ (serve_all_ok fuel d.1 d.2 sync (omega arith)))
    | inr (x, failed) ↦
        let d = read_body F h w in
        rw (failed, serve_all)
          (record { last = (err x, d.1, d.2); ended = refl; right = λ bs e. cc })
  ]

module _ (F : FileSystem) (IsHealthy : F.State → Type 0) (R : IsReliable F IsHealthy) where
  read_body-IsHealthy :
      (h : DiskHitHandler F) (w : World F)
      → IsHealthy w.fs
      → IsHealthy (read_body F h w).2.fs × (is_ok (read_body F h w).0 ≡ true)
  unfolding read_body
  read_body-IsHealthy h w ok_now =
      let s = (F.seek h.file h.range_start w.fs).1 in
      ground (
        arith,
        R.seek-IsHealthy h.file h.range_start w.fs,
        R.read_some-IsHealthy h.file (min h.chunk (h.range_end - h.pos)) w.fs,
        R.read_some-IsHealthy h.file (min h.chunk (h.range_end - h.range_start)) s,
      )

  abbrev EndsWell : Option (Stepped F Bytes) → Type 0
  EndsWell none = Unit
  EndsWell (some d) = is_ok d.0 ≡ true

  EndsWell-prepend_to :
      (b : Bytes) (o : Option (Stepped F Bytes)) → EndsWell o → EndsWell (prepend_to F b o)
  EndsWell-prepend_to b none e = tt
  EndsWell-prepend_to b (some (ok bs, h, w)) e = refl
  EndsWell-prepend_to b (some (err x, h, w)) e = cc

  serve_all-EndsWell :
      (fuel : ℕ) (h : DiskHitHandler F) (w : World F)
      → IsHealthy w.fs
      → EndsWell (serve_all F fuel h w)
  unfolding serve_all
  serve_all-EndsWell zero h w healthy = tt
  serve_all-EndsWell (suc fuel) h w healthy =
      let (later, good) = read_body-IsHealthy h w healthy in
      elim (Result-cases (read_body F h w).0) [
        | inl (none, done) ↦ rw (done, serve_all)
        | inl (some b, more) ↦
            rw (more, serve_all) (EndsWell-prepend_to b _ (serve_all-EndsWell fuel _ _ later))
        | inr (x, failed) ↦ cc
      ]

  Served-well :
      (o : Option (Stepped F Bytes)) (bytes : Bytes)
      → Served F o bytes
      → EndsWell o
      → (h' : DiskHitHandler F) × (w' : World F) × (o ≡ some (ok bytes, h', w'))
  Served-well none bytes s e = cc (s.ended)
  Served-well (some (ok bs, h, w)) bytes s e =
      let same : bs ≡ bytes = s.right bs (ground (arith, s.ended)) in (h, w, rw same)
  Served-well (some (err x, h, w)) bytes s e = cc

  -- On a healthy disk the run ends well.
  pub serve_all_healthy :
      (L : IsLawful F) (fuel : ℕ) (h : DiskHitHandler F) (w : World F)
      → IsHealthy w.fs
      → InSync F h w
      → h.range_end - next_pos F h < fuel
      → (h' : DiskHitHandler F) × (w' : World F) × (serve_all F fuel h w
          ≡ some (ok (remaining F h w), h', w'))
  serve_all_healthy L fuel h w healthy s m =
      Served-well _ _ (serve_all_ok F L fuel h w s m) (serve_all-EndsWell fuel h w healthy)
