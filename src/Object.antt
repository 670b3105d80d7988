-- ===== src/Object.antt =====
-- Python objects as the program sees them: by the attributes that `hasattr` finds.
pub mod Extends
use asynchstream.Base.{ℕ, zero, suc, Bool, Option, none, List, ℤ, first, map_option, is_empty}
use asynchstream.Exec.{Exec, give_up}

-- What a read returns and a write takes: bytes, or text by its code points.
pub data Chunk : Type 0 where
  bytes : List ℕ → Chunk
  str : List ℕ → Chunk

-- `not chunk`
abbrev pub is_falsy : Chunk → Bool
is_falsy (bytes l) = is_empty l
is_falsy (str l) = is_empty l

-- An item of `specs`: a size, or an (offset, size) tuple.
pub data Spec : Type 0 where
  just_size : ℤ → Spec
  at_offset : ℤ → ℤ → Spec

-- `sz if isinstance(sz, int) else sz[1]`
abbrev pub spec_size : Spec → ℤ
spec_size (just_size size) = size
spec_size (at_offset offset size) = size

-- What `asplice` uses of its target object.
pub record Sink (W : Type 0) : Type 0 where
  pub fileno : Option (Exec W ℤ)
  pub awrite : Option (Chunk → Exec W ℕ)
  pub write : Option (Chunk → Exec W ℕ)

pub data Target (W : Type 0) : Type 0 where
  fd : ℤ → Target W
  obj : Sink W → Target W

-- The attributes of a stream, each one there or not. `F` is what stands for a method of a given
-- type: the bound method of an object, or the function of a class that waits for `self`.
pub record Attrs (W : Type 0) (F : Type 0 → Type 0) : Type 0 where
  pub read : Option (F (ℤ → Exec W Chunk))
  pub write : Option (F (Chunk → Exec W ℕ))
  pub close : Option (F (Exec W Unit))
  pub flush : Option (F (Exec W Unit))
  pub seek : Option (F (ℤ → ℤ → Exec W ℕ))
  pub tell : Option (F (Exec W ℕ))
  pub readable : Option (F (Exec W Bool))
  pub writable : Option (F (Exec W Bool))
  pub seekable : Option (F (Exec W Bool))
  pub closed : Option (F (Exec W Bool))
  pub fileno : Option (F (Exec W ℤ))
  -- What is read goes to the front of a buffer of the given length.
  pub readinto : Option (F (ℕ → Exec W (List ℕ)))
  pub isatty : Option (F (Exec W Bool))
  pub aread : Option (F (ℤ → Exec W Chunk))
  pub aread_batch : Option (F (List Spec → Exec W (List Chunk)))
  pub awrite : Option (F (Chunk → Exec W ℕ))
  pub awrite_batch : Option (F (List Chunk → Exec W (List ℕ)))
  pub aclose : Option (F (Exec W Unit))
  pub aflush : Option (F (Exec W Unit))
  pub asplice : Option (F (Target W → ℤ → Exec W ℕ))
  pub ext_aread_batch : Option (F (List Spec → Exec W (List Chunk)))
  pub ext_awrite_batch : Option (F (List Chunk → Exec W (List ℕ)))
  pub ext_asplice : Option (F (ℤ → ℤ → Exec W ℕ))

-- An object, by its bound methods.
abbrev pub Stream : Type 0 → Type 0
Stream W = Attrs W (λ A. A)

-- A function that a class keeps under an attribute's name.
abbrev pub Method : Type 0 → Type 0 → Type 0
Method W A = Stream W → A

-- The attributes of a class, or those in an object's own dictionary.
abbrev pub Namespace : Type 0 → Type 0
Namespace W = Attrs W (Method W)

abbrev pub as_sink : {W : Type 0} → Stream W → Sink W
as_sink s = record { fileno = s.fileno; awrite = s.awrite; write = s.write }

module _ {W : Type 0} {F : Type 0 → Type 0} where
  -- No attributes at all.
  abbrev pub empty : Attrs W F
  empty = record {
    read = none;
    write = none;
    close = none;
    flush = none;
    seek = none;
    tell = none;
    readable = none;
    writable = none;
    seekable = none;
    closed = none;
    fileno = none;
    readinto = none;
    isatty = none;
    aread = none;
    aread_batch = none;
    awrite = none;
    awrite_batch = none;
    aclose = none;
    aflush = none;
    asplice = none;
    ext_aread_batch = none;
    ext_awrite_batch = none;
    ext_asplice = none;
  }

  -- Attribute lookup goes through `a` and then through `b`.
  abbrev pub inherit : Attrs W F → Attrs W F → Attrs W F
  inherit a b = record {
    read = first a.read b.read;
    write = first a.write b.write;
    close = first a.close b.close;
    flush = first a.flush b.flush;
    seek = first a.seek b.seek;
    tell = first a.tell b.tell;
    readable = first a.readable b.readable;
    writable = first a.writable b.writable;
    seekable = first a.seekable b.seekable;
    closed = first a.closed b.closed;
    fileno = first a.fileno b.fileno;
    readinto = first a.readinto b.readinto;
    isatty = first a.isatty b.isatty;
    aread = first a.aread b.aread;
    aread_batch = first a.aread_batch b.aread_batch;
    awrite = first a.awrite b.awrite;
    awrite_batch = first a.awrite_batch b.awrite_batch;
    aclose = first a.aclose b.aclose;
    aflush = first a.aflush b.aflush;
    asplice = first a.asplice b.asplice;
    ext_aread_batch = first a.ext_aread_batch b.ext_aread_batch;
    ext_awrite_batch = first a.ext_awrite_batch b.ext_awrite_batch;
    ext_asplice = first a.ext_asplice b.ext_asplice;
  }

module _ {W : Type 0} where
  -- The methods of a class, bound to `self`.
  abbrev pub bound : Namespace W → Stream W → Stream W
  bound ns self = record {
    read = map_option (λ m. m self) ns.read;
    write = map_option (λ m. m self) ns.write;
    close = map_option (λ m. m self) ns.close;
    flush = map_option (λ m. m self) ns.flush;
    seek = map_option (λ m. m self) ns.seek;
    tell = map_option (λ m. m self) ns.tell;
    readable = map_option (λ m. m self) ns.readable;
    writable = map_option (λ m. m self) ns.writable;
    seekable = map_option (λ m. m self) ns.seekable;
    closed = map_option (λ m. m self) ns.closed;
    fileno = map_option (λ m. m self) ns.fileno;
    readinto = map_option (λ m. m self) ns.readinto;
    isatty = map_option (λ m. m self) ns.isatty;
    aread = map_option (λ m. m self) ns.aread;
    aread_batch = map_option (λ m. m self) ns.aread_batch;
    awrite = map_option (λ m. m self) ns.awrite;
    awrite_batch = map_option (λ m. m self) ns.awrite_batch;
    aclose = map_option (λ m. m self) ns.aclose;
    aflush = map_option (λ m. m self) ns.aflush;
    asplice = map_option (λ m. m self) ns.asplice;
    ext_aread_batch = map_option (λ m. m self) ns.ext_aread_batch;
    ext_awrite_batch = map_option (λ m. m self) ns.ext_awrite_batch;
    ext_asplice = map_option (λ m. m self) ns.ext_asplice;
  }

  -- The same attributes, each of which gives up when it is called.
  abbrev pub exhausted : Namespace W → Stream W
  exhausted ns = record {
    read = map_option (λ _ _. give_up) ns.read;
    write = map_option (λ _ _. give_up) ns.write;
    close = map_option (λ _. give_up) ns.close;
    flush = map_option (λ _. give_up) ns.flush;
    seek = map_option (λ _ _ _. give_up) ns.seek;
    tell = map_option (λ _. give_up) ns.tell;
    readable = map_option (λ _. give_up) ns.readable;
    writable = map_option (λ _. give_up) ns.writable;
    seekable = map_option (λ _. give_up) ns.seekable;
    closed = map_option (λ _. give_up) ns.closed;
    fileno = map_option (λ _. give_up) ns.fileno;
    readinto = map_option (λ _ _. give_up) ns.readinto;
    isatty = map_option (λ _. give_up) ns.isatty;
    aread = map_option (λ _ _. give_up) ns.aread;
    aread_batch = map_option (λ _ _. give_up) ns.aread_batch;
    awrite = map_option (λ _ _. give_up) ns.awrite;
    awrite_batch = map_option (λ _ _. give_up) ns.awrite_batch;
    aclose = map_option (λ _. give_up) ns.aclose;
    aflush = map_option (λ _. give_up) ns.aflush;
    asplice = map_option (λ _ _ _. give_up) ns.asplice;
    ext_aread_batch = map_option (λ _ _. give_up) ns.ext_aread_batch;
    ext_awrite_batch = map_option (λ _ _. give_up) ns.ext_awrite_batch;
    ext_asplice = map_option (λ _ _ _. give_up) ns.ext_asplice;
  }

  -- An object of class `ns` whose methods may call one another `depth` deep.
  unfoldable pub instantiate : ℕ → Namespace W → Stream W
  instantiate zero ns = exhausted ns
  instantiate (suc depth) ns = bound ns (instantiate depth ns)
