-- ===== src/HeapHelp/Symbols.antt =====
-- The symbols of a stack trace, and which traces are internal to the C library.
use Prim.Native.Char.{code}
use Prim.Native.String.{String}
use text.Mathlib.Text.{◌==◌}
use mathlib.Core.List.{map}
use iu_sp.Base.{◌==◌ as nat_eq, ◌&&◌, ℕ, Bool, true, false, ◌||◌, Option, none, some, List, [], ◌∷◌}

-- struct symbol, with `none` for NULL
pub record Symbol : Type 0 where
  pub file : Option String
  pub name : Option String

-- `strncmp(text, prefix, strlen(prefix)) == 0`
unfoldable pub starts_with : String → String → Bool
starts_with text String.[] = true
starts_with String.[] (String.◌∷◌ d prefix) = false
starts_with (String.◌∷◌ c text) (String.◌∷◌ d prefix) =
    (nat_eq (code c) (code d)) && starts_with text prefix

unfoldable pub trace_sym_is_func : Symbol → String → Bool
trace_sym_is_func sym func = elim sym.name [ none ↦ false | some name ↦ name == func ]

unfoldable pub trace_sym_file_starts_with : Symbol → String → Bool
trace_sym_file_starts_with sym prefix = elim sym.file [
  | none ↦ false
  | some file ↦ starts_with file prefix
]

unfoldable pub trace_sym_is_internal : Symbol → Bool
trace_sym_is_internal sym =
    trace_sym_is_func sym "puts"
    || trace_sym_is_func sym "pthread_create"
    || trace_sym_is_func sym "_IO_printf"
    || trace_sym_file_starts_with sym "libpthread.so"

unfoldable pub trace_is_internal : List Symbol → Bool
trace_is_internal [] = false
trace_is_internal (sym ∷ syms) = trace_sym_is_internal sym || trace_is_internal syms

-- `dladdr` is the C library's function of that name: the symbol at an address, or none.
unfoldable pub resolve_symbol : (ℕ → Option Symbol) → ℕ → Symbol
resolve_symbol dladdr addr = elim (dladdr addr) [
  | none ↦ record { file = none; name = none }
  | some sym ↦ sym
]

unfoldable pub trace_resolve : (ℕ → Option Symbol) → List ℕ → List Symbol
trace_resolve dladdr addrs = map (resolve_symbol dladdr) addrs
