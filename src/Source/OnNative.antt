-- ===== src/Source/OnNative.antt =====
-- The source handler of src/cfdppy/handler/source.py on the native filestore.
use cfdp_py.Base.{ℕ}
use cfdp_py.Filestore.{Tree}
use cfdp_py.Filestore.Check.{CrcCalculator}
use cfdp_py.Filestore.Native.{native_filestore}
use cfdp_py.Source.State.{SourceEnv}

module _ {T C : Type 0} (env : SourceEnv Tree T) (crc : CrcCalculator C) (directory_size : ℕ) where
  -- The handler's surroundings with the native filestore.
  abbrev pub on_native : SourceEnv Tree T
  on_native = record env { env = record env.env { vfs = native_filestore crc directory_size } }
