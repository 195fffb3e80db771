-- ===== src/Chunk/Loaded.antt =====
-- What loads from a dump (src/ldump.c, src/lundump.c), and the prototypes that can be dumped and
-- loaded again.
use lunacy.Base.{ℕ, suc, ◌^◌, ◌<◌, ◌≡◌, Bool, true, if◌then◌else◌, length, All}
use lunacy.Chunk.{StringRef, Fields, Proto, Protos, proto, no_protos, one_more, count_protos}
use lunacy.Chunk.Dump.{kept}
use lunacy.Chunk.Load.{or_parent}
use lunacy.Chunk.Reads.{StringFits, ConstantFits, LocVarFits}

-- The ranges of the C types, for the fields of one prototype.
pub record FieldsFit (f : Fields) : Type 0 where
  pub source : StringFits f.source
  pub linedefined : f.linedefined < 2 ^ 31
  pub lastlinedefined : f.lastlinedefined < 2 ^ 31
  pub nups : f.nups < 256
  pub numparams : f.numparams < 256
  pub is_vararg : f.is_vararg < 256
  pub maxstacksize : f.maxstacksize < 256
  pub code : All (λ x. x < 256 ^ 4) f.code
  pub sizecode : length f.code < 2 ^ 31
  pub k : All ConstantFits f.k
  pub sizek : length f.k < 2 ^ 31
  pub lineinfo : All (λ x. x < 256 ^ 4) f.lineinfo
  pub sizelineinfo : length f.lineinfo < 2 ^ 31
  pub locvars : All LocVarFits f.locvars
  pub sizelocvars : length f.locvars < 2 ^ 31
  pub upvalues : All StringFits f.upvalues
  pub sizeupvalues : length f.upvalues < 2 ^ 31

-- The source of a loaded function: its own, or else that of the function around it. A stripped chunk
-- has none of its own.
abbrev pub loaded_source : Bool → StringRef → StringRef → StringRef
loaded_source strip source p = if strip then p else or_parent source p

-- The prototype that loads from the dump of `f`: stripping leaves the debug information out.
unfoldable mutual
  pub loaded : Bool → StringRef → Proto → Proto
  loaded strip p (proto f fs) =
      proto
        (record f {
          source = loaded_source strip f.source p;
          lineinfo = kept strip f.lineinfo;
          locvars = kept strip f.locvars;
          upvalues = kept strip f.upvalues;
        })
        (loaded_all strip (loaded_source strip f.source p) fs)

  pub loaded_all : Bool → StringRef → Protos → Protos
  loaded_all strip p no_protos = no_protos
  loaded_all strip p (one_more f fs) = one_more (loaded strip p f) (loaded_all strip p fs)

-- In every function of the tree the fields have their ranges, what it loads as passes the bytecode
-- check, and functions are nested at most `left` deep.
module _ (check : Proto → Bool) (strip : Bool) where
  mutual
    pub data Loadable : ℕ → StringRef → Proto → Type 0 where
      loadable :
          {left : ℕ} {p : StringRef} {f : Fields} {fs : Protos}
          → FieldsFit f
          → count_protos fs < 2 ^ 31
          → LoadableAll left (loaded_source strip f.source p) fs
          → check (loaded strip p (proto f fs)) ≡ true
          → Loadable (suc left) p (proto f fs)

    pub data LoadableAll : ℕ → StringRef → Protos → Type 0 where
      none_left : {left : ℕ} {p : StringRef} → LoadableAll left p no_protos
      and_more :
          {left : ℕ} {p : StringRef} {f : Proto} {fs : Protos}
          → Loadable left p f
          → LoadableAll left p fs
          → LoadableAll left p (one_more f fs)
