-- ===== src/Meta.antt =====
-- py_native_io/base.py: the metaclass `AsyncIOBaseMeta`, which gives a class the async methods that
-- its body leaves out. A class body is the namespace of the names that it defines.
pub mod Synthesis
pub mod Wrappers
use asynchstream.Base.{ℕ, Bool, Option, none, some, List, [], ◌∷◌, ◌++◌, ℤ, contains, is_some}
use asynchstream.Base.{if◌then◌else◌}
use asynchstream.Exec.{Exec, call, to_thread, comprehension}
use asynchstream.Object.{Chunk, Spec, spec_size, Attrs, Method, Namespace, inherit}

-- The names that the metaclass may synthesize.
pub data AsyncName : Type 0 where
  aread aread_batch awrite awrite_batch aclose aflush : AsyncName

-- `name in namespace`
abbrev pub has : {W : Type 0} {F : Type 0 → Type 0} → AsyncName → Attrs W F → Bool
has aread ns = is_some ns.aread
has aread_batch ns = is_some ns.aread_batch
has awrite ns = is_some ns.awrite
has awrite_batch ns = is_some ns.awrite_batch
has aclose ns = is_some ns.aclose
has aflush ns = is_some ns.aflush

module _ {W : Type 0} where
  unfoldable pub auto_aread : Method W (ℤ → Exec W Chunk) → Method W (ℤ → Exec W Chunk)
  auto_aread sync_read self size = to_thread (sync_read self size)

  unfoldable pub auto_aread_batch : Method W (List Spec → Exec W (List Chunk))
  unfolding comprehension
  auto_aread_batch self specs = comprehension (λ sz. call self.aread (spec_size sz)) specs

  unfoldable pub auto_awrite : Method W (Chunk → Exec W ℕ) → Method W (Chunk → Exec W ℕ)
  auto_awrite sync_write self b = to_thread (sync_write self b)

  unfoldable pub auto_awrite_batch : Method W (List Chunk → Exec W (List ℕ))
  unfolding comprehension
  auto_awrite_batch self chunks = comprehension (call self.awrite) chunks

  -- `auto_aclose` and `auto_aflush`
  unfoldable pub auto_call : Method W (Exec W Unit) → Method W (Exec W Unit)
  auto_call sync_call self = to_thread (sync_call self)

-- The class under construction, and the list `synthesized`.
pub record Built (W : Type 0) : Type 0 where
  pub cls : Namespace W
  pub synthesized : List AsyncName

module _ {W : Type 0} where
  -- One `if` of `__new__` each, on the two names of the class body that it tests.
  unfoldable pub synth_aread :
      Option (Method W (ℤ → Exec W Chunk))
      → Option (Method W (ℤ → Exec W Chunk))
      → Built W
      → Built W
  synth_aread (some sync_read) none b = record {
    cls = record b.cls { aread = some (auto_aread sync_read) };
    synthesized = b.synthesized ++ (aread ∷ []);
  }
  synth_aread _ _ b = b

  unfoldable pub synth_aread_batch :
      Option (Method W (ℤ → Exec W Chunk))
      → Option (Method W (List Spec → Exec W (List Chunk)))
      → Built W
      → Built W
  synth_aread_batch (some _) none b = record {
    cls = record b.cls { aread_batch = some auto_aread_batch };
    synthesized = b.synthesized ++ (aread_batch ∷ []);
  }
  synth_aread_batch _ _ b = b

  unfoldable pub synth_awrite :
      Option (Method W (Chunk → Exec W ℕ))
      → Option (Method W (Chunk → Exec W ℕ))
      → Built W
      → Built W
  synth_awrite (some sync_write) none b = record {
    cls = record b.cls { awrite = some (auto_awrite sync_write) };
    synthesized = b.synthesized ++ (awrite ∷ []);
  }
  synth_awrite _ _ b = b

  unfoldable pub synth_awrite_batch :
      Option (Method W (Chunk → Exec W ℕ))
      → Option (Method W (List Chunk → Exec W (List ℕ)))
      → Built W
      → Built W
  synth_awrite_batch (some _) none b = record {
    cls = record b.cls { awrite_batch = some auto_awrite_batch };
    synthesized = b.synthesized ++ (awrite_batch ∷ []);
  }
  synth_awrite_batch _ _ b = b

  unfoldable pub synth_aclose :
      Option (Method W (Exec W Unit)) → Option (Method W (Exec W Unit)) → Built W → Built W
  synth_aclose (some sync_close) none b = record {
    cls = record b.cls { aclose = some (auto_call sync_close) };
    synthesized = b.synthesized ++ (aclose ∷ []);
  }
  synth_aclose _ _ b = b

  unfoldable pub synth_aflush :
      Option (Method W (Exec W Unit)) → Option (Method W (Exec W Unit)) → Built W → Built W
  synth_aflush (some sync_flush) none b = record {
    cls = record b.cls { aflush = some (auto_call sync_flush) };
    synthesized = b.synthesized ++ (aflush ∷ []);
  }
  synth_aflush _ _ b = b

  -- `AsyncIOBaseMeta.__new__`: the new class first has what its body defines and what its bases,
  -- looked up in their resolution order, give it.
  unfoldable pub new_class : Namespace W → Namespace W → Built W
  new_class namespace bases =
      let b : Built W = record { cls = inherit namespace bases; synthesized = [] } in
      let b = synth_aread namespace.read namespace.aread b in
      let b = synth_aread_batch namespace.aread namespace.aread_batch b in
      let b = synth_awrite namespace.write namespace.awrite b in
      let b = synth_awrite_batch namespace.awrite namespace.awrite_batch b in
      let b = synth_aclose namespace.close namespace.aclose b in
      synth_aflush namespace.flush namespace.aflush b

-- The set `_logged_classes`, by the identities of the classes, and the log lines so far.
pub record Log : Type 0 where
  pub logged_classes : List ℕ
  pub lines : List (ℕ × List AsyncName)

-- The end of `__new__`: a class is logged unless it has been.
unfoldable pub log_class : ℕ → List AsyncName → Log → Log
log_class cls synthesized log = if contains cls log.logged_classes then log else record {
  logged_classes = cls ∷ log.logged_classes;
  lines = log.lines ++ ((cls, synthesized) ∷ []);
}
