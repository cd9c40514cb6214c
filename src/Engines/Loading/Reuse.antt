-- ===== src/Engines/Loading/Reuse.antt =====
-- Files of src/engines/embeddings.rs and src/engines/rerank.rs that were downloaded are used again.
use rust_enterprise_query_en.Common.{
  and_then-ok, ℕ, true, List, Option, Result, ok, ◌≡◌, refl, ap, ◌∙◌, Bool-cases, Result-cases, inl,
  inr, arith,
}
use rust_enterprise_query_en.Common.Text.{Text, codes}
use rust_enterprise_query_en.Engines.Loading.{
  Machine, Builders, World, Error, download_file, fetch, write_file, create_dir, slash,
  download_model, load_from, load_model, load_cross_encoder, download_files,
}

-- What the file system documents: what was written is there, and neither a write nor the creation of
-- a directory removes a file.
pub record DiskLaws (machine : Machine) : Type 0 where
  pub written :
      (disk : machine.Disk) (path : Text) (bytes : List ℕ)
      → (machine.write disk path bytes).1 ≡ ok tt
      → machine.exists (machine.write disk path bytes).0 path ≡ true
  pub write_keeps :
      (disk : machine.Disk) (path other : Text) (bytes : List ℕ)
      → machine.exists disk other ≡ true
      → machine.exists (machine.write disk path bytes).0 other ≡ true
  pub dir_keeps :
      (disk : machine.Disk) (dir other : Text)
      → machine.exists disk other ≡ true
      → machine.exists (machine.create_dir_all disk dir).0 other ≡ true

module _ (machine : Machine) (laws : DiskLaws machine) (B : Type 0) where
  abbrev Has : World machine → Text → Type 0
  Has w path = machine.exists w.disk path ≡ true

  download_file_present :
      (url dest : Text) (w : World machine)
      → Has w dest
      → download_file machine B url dest w ≡ (w, ok dest)
  unfolding download_file
  download_file_present url dest w there = rw there

  download_file_keeps :
      (url dest other : Text) (w : World machine)
      → Has w other
      → Has (download_file machine B url dest w).0 other
  unfolding download_file fetch write_file
  download_file_keeps url dest other w there = elim (Bool-cases (machine.exists w.disk dest)) [
    | inl present ↦ rw present there
    | inr absent ↦ rw absent (elim (Result-cases (machine.get_bytes w.net url).1) [
      | inl (bytes, got) ↦ rw got (laws.write_keeps w.disk dest other bytes there)
      | inr (e, failed) ↦ rw failed there
    ])
  ]

  download_file_saves :
      (url dest : Text) (w : World machine) {path : Text}
      → (download_file machine B url dest w).1 ≡ ok path
      → Has (download_file machine B url dest w).0 dest
  unfolding download_file fetch write_file
  download_file_saves url dest w {path} h = elim (Bool-cases (machine.exists w.disk dest)) [
    | inl present ↦ rw present present
    | inr absent ↦ elim (Result-cases (machine.get_bytes w.net url).1) [
      | inr (e, failed) ↦ absurd (ground arith)
      | inl (bytes, got) ↦ elim (Result-cases (machine.write w.disk dest bytes).1) [
        | inr (e, failed) ↦ absurd (ground arith)
        | inl (u, saved) ↦ rw (absent, got) (laws.written w.disk dest bytes saved)
      ]
    ]
  ]

  -- The three files of a model are on the disk.
  Present : Text → World machine → Type 0
  Present dir w =
      Has w (slash machine B dir (codes "config.json"))
      × Has w (slash machine B dir (codes "tokenizer.json"))
      × Has w (slash machine B dir (codes "model.safetensors"))

  download_files-Present :
      (base dir : Text) (w : World machine) {paths : Text × Text × Text}
      → (download_files machine B base dir w).1 ≡ ok paths
      → Present dir (download_files machine B base dir w).0
  unfolding download_files Present
  download_files-Present base dir w h =
      let (_, ok1, e1, h2) = and_then-ok (download_file machine B _ _ _) _ h in
      let (_, ok2, e2, h3) = and_then-ok (download_file machine B _ _ _) _ h2 in
      let (_, ok3, e3, _) = and_then-ok (download_file machine B _ _ _) _ h3 in
      rw (e1, e2, e3)
        (
          download_file_keeps _ _ _ _ (download_file_keeps _ _ _ _ (download_file_saves _ _ _ ok1)),
          download_file_keeps _ _ _ _ (download_file_saves _ _ _ ok2),
          download_file_saves _ _ _ ok3,
        )

  download_model-Present :
      (base dir : Text) (w : World machine) {paths : Text × Text × Text}
      → (download_model machine B base dir w).1 ≡ ok paths
      → Present dir (download_model machine B base dir w).0
  unfolding download_model
  download_model-Present base dir w h =
      let (_, _, e, h1) = and_then-ok (create_dir machine B dir w) _ h in
      rw e (download_files-Present base dir _ h1)

  download_files_again :
      (base dir : Text) (w : World machine)
      → Present dir w
      → (download_files machine B base dir w).0 ≡ w
  unfolding download_files Present
  download_files_again base dir w (a, b, c) =
      rw
        (
          download_file_present (slash machine B base (codes "config.json")) _ w a,
          download_file_present (slash machine B base (codes "tokenizer.json")) _ w b,
          download_file_present (slash machine B base (codes "model.safetensors")) _ w c,
        )
        refl

  create_dir-Present :
      (dir : Text) (w : World machine) → Present dir w → Present dir (create_dir machine B dir w).0
  unfolding create_dir Present
  create_dir-Present dir w (a, b, c) =
      (laws.dir_keeps _ _ _ a, laws.dir_keeps _ _ _ b, laws.dir_keeps _ _ _ c)

  create_dir-net : (dir : Text) (w : World machine) → (create_dir machine B dir w).0.net ≡ w.net
  unfolding create_dir
  create_dir-net dir w = refl

  download_model_again :
      (base dir : Text) (w : World machine)
      → Present dir w
      → (download_model machine B base dir w).0.net ≡ w.net
  unfolding download_model
  download_model_again base dir w there = elim (Result-cases (create_dir machine B dir w).1) [
    | inr (e, failed) ↦ rw failed (create_dir-net dir w)
    | inl (u, made) ↦ rw made (
        ap (λ (x : World machine). x.net)
          (download_files_again base dir _ (create_dir-Present dir w there))
        ∙ create_dir-net dir w)
  ]

module _ (machine : Machine) (laws : DiskLaws machine) (builders : Builders machine) where
  -- Building a model changes nothing.
  load_from-download :
      (check : builders.Config → Result (Error machine builders.BuildError) (Unit {0}))
      (base dir : Text) (w : World machine)
      → (load_from machine builders check base dir w).0
        ≡ (download_model machine builders.BuildError base dir w).0
  unfolding load_from
  load_from-download check base dir w =
      elim (Result-cases (download_model machine builders.BuildError base dir w).1) [
        | inl (paths, made) ↦ rw made refl
        | inr (e, failed) ↦ rw failed refl
      ]

  load_from-ok :
      (check : builders.Config → Result (Error machine builders.BuildError) (Unit {0}))
      (base dir : Text) (w : World machine) {model : builders.Network × builders.Tokenizer}
      → (load_from machine builders check base dir w).1 ≡ ok model
      → (paths : Text × Text × Text) × ((download_model machine builders.BuildError base dir w).1
          ≡ ok paths)
  unfolding load_from
  load_from-ok check base dir w h =
      let (paths, downloaded, _, _) =
        and_then-ok (download_model machine builders.BuildError base dir w) _ h in
      (paths, downloaded)

  load_from_reuses :
      (check : builders.Config → Result (Error machine builders.BuildError) (Unit {0}))
      (base dir : Text) (w : World machine) {model : builders.Network × builders.Tokenizer}
      → (load_from machine builders check base dir w).1 ≡ ok model
      → (load_from machine builders check base dir
          (load_from machine builders check base dir w).0).0.net
        ≡ (load_from machine builders check base dir w).0.net
  load_from_reuses check base dir w h =
      let (_, downloaded) = load_from-ok check base dir w h in
      rw (load_from-download check base dir, load_from-download check base dir w)
        (download_model_again machine laws builders.BuildError base dir _
          (download_model-Present machine laws builders.BuildError base dir w downloaded))

  -- Where the file system keeps what was written, a model that was loaded once is loaded from the
  -- disk the next time: neither `load_model` nor `load_cross_encoder` uses the network again.
  pub load-load_reuses :
      (setting other : Option Text) (w v : World machine)
      {model encoder : builders.Network × builders.Tokenizer}
      → (load_model machine builders setting w).1 ≡ ok model
      → (load_cross_encoder machine builders other v).1 ≡ ok encoder
      → ((load_model machine builders setting (load_model machine builders setting w).0).0.net
          ≡ (load_model machine builders setting w).0.net)
        × ((load_cross_encoder machine builders other
              (load_cross_encoder machine builders other v).0).0.net
            ≡ (load_cross_encoder machine builders other v).0.net)
  unfolding load_model load_cross_encoder
  load-load_reuses setting other w v loaded encoded =
      (load_from_reuses _ _ _ w loaded, load_from_reuses _ _ _ v encoded)
