-- ===== src/AgentMgr/Image/Steps.antt =====
-- What the writers of disk images (`src/agentmgr/cdrom_manager.go`, `fat32_manager.go`) leave
-- behind, as a specification sees it: file systems that do what the given ones do, and keep a list
-- of the steps that matter, newest first.
use mathlib.Core.List.{append_assoc}
use bosh_lxd_cpi_release.Base.{
  String, Bool, ◌≡◌, ap, sym, ◌∙◌, Option, none, some, List, [], ◌∷◌, ◌++◌, ◌==◌, ◌<>◌,
  if◌then◌else◌, arith, true,
}
use bosh_lxd_cpi_release.Base.Text.{has_prefix}
use bosh_lxd_cpi_release.Base.Go.{ok, M, Done, pure, bind-ok, ◌>>=◌}
use bosh_lxd_cpi_release.AgentMgr.Files.{
  Files, ImageFiles, mkdir_each, mkdir_all, write_new_file, write_file,
}
use bosh_lxd_cpi_release.AgentMgr.Image.{DiskImages, NewFilesystem, finalize_image}

-- A file on the image, a file beside the CPI, the finish of the image, the reading and the removal
-- of a file.
pub data Step : Type 0 where
  put_on_image : String → String → Step
  keep_file : String → String → Step
  finish : String → Step
  read_whole : String → Step
  take_away : String → Step

pub record Traced (W : Type 0) : Type 0 where
  pub world : W
  pub steps : List Step

abbrev pub start : {W : Type 0} → W → Traced W
start w = record { world = w; steps = [] }

module _ {W : Type 0} where
  abbrev pub untraced : {A : Type 0} → M W A → M (Traced W) A
  untraced m s = let (r, w) = m s.world in (r, record { world = w; steps = s.steps })

  abbrev pub tracing : {A : Type 0} → Step → M W A → M (Traced W) A
  tracing x m s = let (r, w) = m s.world in (r, record { world = w; steps = x ∷ s.steps })

  abbrev pub traced_files : Files W → Files (Traced W)
  traced_files files = record {
    create_temp = λ p. untraced (files.create_temp p);
    close = λ n. untraced (files.close n);
    remove = λ n. tracing (take_away n) (files.remove n);
    is_not_exist = files.is_not_exist;
    read_file = λ n. tracing (read_whole n) (files.read_file n);
    write_file = λ n contents. tracing (keep_file n contents) (files.write_file n contents);
    join = files.join;
    dir = files.dir;
  }

  -- An open file knows its path.
  abbrev pub traced_image_files : {R : Type 0} → ImageFiles W R → ImageFiles (Traced W) (String × R)
  traced_image_files fs = record {
    mkdir = λ p. untraced (fs.mkdir p);
    open_file = λ p. untraced (fs.open_file p) >>= λ r. pure (p, r);
    write = λ (p, r) contents. tracing (put_on_image p contents) (fs.write r contents);
    close = λ (p, r). untraced (fs.close r);
  }

  abbrev traced_finalize :
      Option (Bool → String → M W Done) → Option (Bool → String → M (Traced W) Done)
  traced_finalize none = none
  traced_finalize (some finalize) =
      some (λ rock_ridge label. tracing (finish label) (finalize rock_ridge label))

  abbrev pub traced_filesystem :
      {R : Type 0} → NewFilesystem W R → NewFilesystem (Traced W) (String × R)
  traced_filesystem fs = record {
    image_files = traced_image_files fs.image_files;
    finalize = traced_finalize fs.finalize;
  }

  abbrev pub traced_images :
      {I R : Type 0} → DiskImages W I R → DiskImages (Traced W) I (String × R)
  traced_images images = record {
    create = λ n size. untraced (images.create n size);
    with_logical_blocksize = images.with_logical_blocksize;
    partition = λ i table. untraced (images.partition i table);
    create_filesystem =
        λ i spec. untraced (images.create_filesystem i spec) >>= λ fs. pure (traced_filesystem fs);
  }

-- A call that takes these steps (newest first) where it returns without an error.
abbrev pub Takes : {W A : Type 0} → List Step → M (Traced W) A → Type 0
Takes {W} {A} new m = (s s' : Traced W) (a : A) → m s ≡ (ok a, s') → s'.steps ≡ new ++ s.steps

module _ {W A : Type 0} where
  pub untraced-Takes : (m : M W A) → Takes [] (untraced m)
  untraced-Takes m s s' a h = sym (ap (λ p. p.1.steps) h)

  pub tracing-Takes : (x : Step) (m : M W A) → Takes (x ∷ []) (tracing x m)
  tracing-Takes x m s s' a h = sym (ap (λ p. p.1.steps) h)

  pub bind-Takes :
      {B : Type 0} (m : M (Traced W) A) (f : A → M (Traced W) B) (first next : List Step)
      → Takes first m
      → ((a : A) → Takes next (f a))
      → Takes (next ++ first) (m >>= f)
  bind-Takes m f first next before after s s' b h =
      let (a, s₁, e, h') = bind-ok m f s h in
      after a s₁ s' b h'
      ∙ ap (λ l. next ++ l) (before s s₁ a e)
      ∙ sym (append_assoc next first s.steps)

-- A file that is put on the image, if its path is not empty.
abbrev pub put_if : String → String → List Step
put_if path contents =
    if path == ""
    then []
    else put_on_image (if has_prefix path "/" then path else "/" <> path) contents ∷ []

module _ {W R : Type 0} (fs : ImageFiles W R) where
  mkdir_each-Takes : (dirs : List String) → Takes [] (mkdir_each (traced_image_files fs) dirs)
  unfolding mkdir_each
  mkdir_each-Takes [] s s' a h = sym (ap (λ p. p.1.steps) h)
  mkdir_each-Takes (dir ∷ dirs) s s' a h =
      bind-Takes (untraced (fs.mkdir dir)) (λ _. mkdir_each (traced_image_files fs) dirs) [] []
        (untraced-Takes (fs.mkdir dir)) (λ _. mkdir_each-Takes dirs) s s' a h

  pub mkdir_all-Takes : (path : String) → Takes [] (mkdir_all (traced_image_files fs) path)
  unfolding mkdir_all
  mkdir_all-Takes path = mkdir_each-Takes _

  pub write_file-Takes :
      (path contents : String)
      → Takes (put_if path contents) (write_file (traced_image_files fs) path contents)
  unfolding write_file write_new_file
  write_file-Takes path contents s s' a h = ground arith

pub finalize_image-Takes :
    {W : Type 0} (finalize : Option (Bool → String → M W Done)) (label : String)
    → Takes (finish label ∷ []) (finalize_image (traced_finalize finalize) label)
unfolding finalize_image
finalize_image-Takes none label s s' a h = cc
finalize_image-Takes (some finalize) label s s' a h =
    tracing-Takes (finish label) (finalize true label) s s' a h
