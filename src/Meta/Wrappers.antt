-- ===== src/Meta/Wrappers.antt =====
-- What the metaclass of py_native_io/base.py makes of a class body: the methods that it adds run the
-- synchronous ones in a worker thread, and what the body defines is kept.
use asynchstream.Base.{
  ℕ, suc, ◌≡◌, refl, Bool, false, Option, none, some, List, [], ℤ, first, arith,
}
use asynchstream.Exec.{Exec, call, run}
use asynchstream.Object.{Chunk, Method, Namespace, Stream, Spec, inherit, instantiate}
use asynchstream.Object.Extends.{Extends, inherit-Extends}
use asynchstream.Meta.{
  Built, new_class, auto_aread, auto_aread_batch, auto_awrite, auto_awrite_batch, auto_call,
  synth_aread, synth_aread_batch, synth_awrite, synth_awrite_batch, synth_aclose, synth_aflush,
}

module _ {W : Type 0} (ns : Namespace W) where
  -- The attributes of the class body are those of the class.
  record Keeps (b : Built W) : Type 0 where
    kept : Extends ns b.cls

  module _ (b : Built W) (h : Keeps b) where
    synth_aread-Keeps :
        (r : Option (Method W (ℤ → Exec W Chunk))) (a : Option (Method W (ℤ → Exec W Chunk)))
        → ns.aread ≡ a
        → Keeps (synth_aread r a b)
    unfolding synth_aread
    synth_aread-Keeps (some r) none e = record {
      kept = λ i. record (h.kept i) { aread = first (e i) (some (auto_aread r)) };
    }
    synth_aread-Keeps (some r) (some a) e = h
    synth_aread-Keeps none a e = h

    synth_aread_batch-Keeps :
        (r : Option (Method W (ℤ → Exec W Chunk)))
        (a : Option (Method W (List Spec → Exec W (List Chunk))))
        → ns.aread_batch ≡ a
        → Keeps (synth_aread_batch r a b)
    unfolding synth_aread_batch
    synth_aread_batch-Keeps (some r) none e = record {
      kept = λ i. record (h.kept i) { aread_batch = first (e i) (some auto_aread_batch) };
    }
    synth_aread_batch-Keeps (some r) (some a) e = h
    synth_aread_batch-Keeps none a e = h

    synth_awrite-Keeps :
        (r : Option (Method W (Chunk → Exec W ℕ))) (a : Option (Method W (Chunk → Exec W ℕ)))
        → ns.awrite ≡ a
        → Keeps (synth_awrite r a b)
    unfolding synth_awrite
    synth_awrite-Keeps (some r) none e = record {
      kept = λ i. record (h.kept i) { awrite = first (e i) (some (auto_awrite r)) };
    }
    synth_awrite-Keeps (some r) (some a) e = h
    synth_awrite-Keeps none a e = h

    synth_awrite_batch-Keeps :
        (r : Option (Method W (Chunk → Exec W ℕ)))
        (a : Option (Method W (List Chunk → Exec W (List ℕ))))
        → ns.awrite_batch ≡ a
        → Keeps (synth_awrite_batch r a b)
    unfolding synth_awrite_batch
    synth_awrite_batch-Keeps (some r) none e = record {
      kept = λ i. record (h.kept i) { awrite_batch = first (e i) (some auto_awrite_batch) };
    }
    synth_awrite_batch-Keeps (some r) (some a) e = h
    synth_awrite_batch-Keeps none a e = h

    synth_aclose-Keeps :
        (r : Option (Method W (Exec W Unit))) (a : Option (Method W (Exec W Unit)))
        → ns.aclose ≡ a
        → Keeps (synth_aclose r a b)
    unfolding synth_aclose
    synth_aclose-Keeps (some r) none e = record {
      kept = λ i. record (h.kept i) { aclose = first (e i) (some (auto_call r)) };
    }
    synth_aclose-Keeps (some r) (some a) e = h
    synth_aclose-Keeps none a e = h

    synth_aflush-Keeps :
        (r : Option (Method W (Exec W Unit))) (a : Option (Method W (Exec W Unit)))
        → ns.aflush ≡ a
        → Keeps (synth_aflush r a b)
    unfolding synth_aflush
    synth_aflush-Keeps (some r) none e = record {
      kept = λ i. record (h.kept i) { aflush = first (e i) (some (auto_call r)) };
    }
    synth_aflush-Keeps (some r) (some a) e = h
    synth_aflush-Keeps none a e = h

  -- The new class extends its body: whatever attribute the body defines, the class has that definition.
  pub inherit-new_class : (bases : Namespace W) → Extends ns (new_class ns bases).cls
  unfolding new_class
  inherit-new_class bases =
      let b0 : Built W = record { cls = inherit ns bases; synthesized = [] } in
      let k0 : Keeps b0 = record { kept = inherit-Extends ns bases } in
      let b1 : Built W = synth_aread ns.read ns.aread b0 in
      let k1 : Keeps b1 = synth_aread-Keeps b0 k0 ns.read ns.aread refl in
      let b2 : Built W = synth_aread_batch ns.aread ns.aread_batch b1 in
      let k2 : Keeps b2 = synth_aread_batch-Keeps b1 k1 ns.aread ns.aread_batch refl in
      let b3 : Built W = synth_awrite ns.write ns.awrite b2 in
      let k3 : Keeps b3 = synth_awrite-Keeps b2 k2 ns.write ns.awrite refl in
      let b4 : Built W = synth_awrite_batch ns.awrite ns.awrite_batch b3 in
      let k4 : Keeps b4 = synth_awrite_batch-Keeps b3 k3 ns.awrite ns.awrite_batch refl in
      let b5 : Built W = synth_aclose ns.close ns.aclose b4 in
      let k5 : Keeps b5 = synth_aclose-Keeps b4 k4 ns.close ns.aclose refl in
      let b6 : Built W = synth_aflush ns.flush ns.aflush b5 in
      let k6 : Keeps b6 = synth_aflush-Keeps b5 k5 ns.flush ns.aflush refl in k6.kept

module _ {W : Type 0} (ns bases : Namespace W) where
  new_class-aread :
      {r : Method W (ℤ → Exec W Chunk)}
      → ns.read ≡ some r
      → ns.aread ≡ none
      → (new_class ns bases).cls.aread ≡ some (auto_aread r)
  unfolding new_class synth_aread synth_aread_batch synth_awrite synth_awrite_batch synth_aclose
      synth_aflush
  new_class-aread h e = ground arith

  new_class-awrite :
      {r : Method W (Chunk → Exec W ℕ)}
      → ns.write ≡ some r
      → ns.awrite ≡ none
      → (new_class ns bases).cls.awrite ≡ some (auto_awrite r)
  unfolding new_class synth_aread synth_aread_batch synth_awrite synth_awrite_batch synth_aclose
      synth_aflush
  new_class-awrite h e = ground arith

  new_class-aclose :
      {r : Method W (Exec W Unit)}
      → ns.close ≡ some r
      → ns.aclose ≡ none
      → (new_class ns bases).cls.aclose ≡ some (auto_call r)
  unfolding new_class synth_aread synth_aread_batch synth_awrite synth_awrite_batch synth_aclose
      synth_aflush
  new_class-aclose h e = ground arith

  new_class-aflush :
      {r : Method W (Exec W Unit)}
      → ns.flush ≡ some r
      → ns.aflush ≡ none
      → (new_class ns bases).cls.aflush ≡ some (auto_call r)
  unfolding new_class synth_aread synth_aread_batch synth_awrite synth_awrite_batch synth_aclose
      synth_aflush
  new_class-aflush h e = ground arith

  abbrev pub instance_of : ℕ → Stream W
  instance_of depth = instantiate depth (new_class ns bases).cls

  -- If a class body defines `read`, `write`, `close` and `flush` and none of the four async counterparts,
  -- then on an instance each of `aread`, `awrite`, `aclose` and `aflush` does what the synchronous method
  -- does in a thread with no running event loop, whether or not the caller has one.
  pub sync_class_runs_in_thread :
      (depth : ℕ) {r : Method W (ℤ → Exec W Chunk)} {w : Method W (Chunk → Exec W ℕ)}
      {c f : Method W (Exec W Unit)}
      → (ns.read ≡ some r) × (ns.aread ≡ none)
      → (ns.write ≡ some w) × (ns.awrite ≡ none)
      → (ns.close ≡ some c) × (ns.aclose ≡ none)
      → (ns.flush ≡ some f) × (ns.aflush ≡ none)
      → (size : ℤ) (b : Chunk) (loop : Bool) (s : W)
      → let self = instance_of depth in
        let o = instance_of (suc depth) in
        (call o.aread size loop s ≡ r self size false s)
        × (call o.awrite b loop s ≡ w self b false s)
        × (run o.aclose loop s ≡ c self false s)
        × (run o.aflush loop s ≡ f self false s)
  unfolding instantiate auto_aread auto_awrite auto_call
  sync_class_runs_in_thread depth hr hw hc hf size b loop s = (
    rw (new_class-aread hr.0 hr.1),
    rw (new_class-awrite hw.0 hw.1),
    rw (new_class-aclose hc.0 hc.1),
    rw (new_class-aflush hf.0 hf.1),
  )
