-- ===== src/Config.antt =====
-- a1/src/db/config.h: the arguments of db_start. The calls of getopt_long_only are given by what they
-- return; an argument's text is of a type of its own, which atoi reads.
pub mod Asked
pub mod Parsed
pub use cmsc_624_spring.Common.{ℤ, pos, negsuc}
use cmsc_624_spring.Common.{
  ℕ, zero, suc, Bool, true, false, ◌&&◌, ◌||◌, Option, none, some, List, [], ◌∷◌, Map, find, put,
  is_some,
}

pub data ExecModel : Type 0 where
  process_pool process thread_pool thread : ExecModel

-- enum option_code
abbrev pub max_outstanding_code : ℕ
max_outstanding_code = 0

abbrev pub pool_size_code : ℕ
pool_size_code = 1

abbrev pub exp_type_code : ℕ
exp_type_code = 2

abbrev pub test_code : ℕ
test_code = 3

abbrev pub contention_code : ℕ
contention_code = 4

-- The ways out of the program, by their messages.
pub data Exit : Type 0 where
  unknown_argument : Exit
  duplicate_argument : Exit
  missing_arguments : Exit
  exp_type_out_of_range : Exit
  pool_size_required : Exit
  max_outstanding_ignored : Exit
  max_outstanding_required : Exit
  pool_size_ignored : Exit

-- The status: `exit(-1)` gives 255.
unfoldable pub exit_status : Exit → ℕ
exit_status unknown_argument = 255
exit_status duplicate_argument = 255
exit_status _ = 0

pub data Result {ℓ} (A : Type ℓ) : Type ℓ where
  done : A → Result A
  exits : Exit → Result A

-- A call of getopt_long_only: the index that it set, if any, and optarg.
pub record Found {ℓ} (A : Type ℓ) : Type ℓ where
  pub index : Option ℕ
  pub optarg : A

module _ {ℓ} {A : Type ℓ} where
  unfoldable pub read_args : List (Found A) → Map A → Result (Map A)
  read_args [] arg_map = done arg_map
  read_args (f ∷ fs) arg_map = elim f.index [
    | none ↦ exits unknown_argument
    | some index ↦ elim (is_some (find index arg_map)) [
      | true ↦ exits duplicate_argument
      | false ↦ read_args fs (put index f.optarg arg_map)
    ]
  ]

-- The check of the range of exp_type, and the switch.
abbrev pub exec_model : ℤ → Option ExecModel
exec_model (pos zero) = some process_pool
exec_model (pos (suc zero)) = some process
exec_model (pos (suc (suc zero))) = some thread_pool
exec_model (pos (suc (suc (suc zero)))) = some thread
exec_model (pos (suc (suc (suc (suc n))))) = none
exec_model (negsuc n) = none

abbrev pub is_pool : ExecModel → Bool
is_pool process_pool = true
is_pool process = false
is_pool thread_pool = true
is_pool thread = false

-- `none`: the field is not set.
pub record ExptConfig : Type 0 where
  pub max_outstanding : Option ℤ
  pub pool_size : Option ℤ
  pub type : ExecModel
  pub test : Bool
  pub contention : Bool

module _ {ℓ} {A : Type ℓ} (atoi : A → ℤ) where
  -- What both branches do, on the argument that they require and the one that they refuse.
  abbrev pub only : Option A → Option A → Exit → Exit → Result ℤ
  only none refused missing superfluous = exits missing
  only (some a) (some b) missing superfluous = exits superfluous
  only (some a) none missing superfluous = done (atoi a)

  unfoldable pub init_sizes : Bool → Map A → (Option ℤ → Option ℤ → ExptConfig) → Result ExptConfig
  init_sizes true arg_map config =
      elim (only (find pool_size_code arg_map) (find max_outstanding_code arg_map)
        pool_size_required max_outstanding_ignored) [
          | exits e ↦ exits e
          | done n ↦ done (config none (some n))
        ]
  init_sizes false arg_map config =
      elim (only (find max_outstanding_code arg_map) (find pool_size_code arg_map)
        max_outstanding_required pool_size_ignored) [
          | exits e ↦ exits e
          | done n ↦ done (config (some n) none)
        ]

  abbrev pub config_of : ExecModel → Map A → Option ℤ → Option ℤ → ExptConfig
  config_of type arg_map max_outstanding pool_size = record {
    max_outstanding = max_outstanding;
    pool_size = pool_size;
    type = type;
    test = is_some (find test_code arg_map);
    contention = is_some (find contention_code arg_map);
  }

  abbrev pub init_type : Option ExecModel → Map A → Result ExptConfig
  init_type none arg_map = exits exp_type_out_of_range
  init_type (some type) arg_map = init_sizes (is_pool type) arg_map (config_of type arg_map)

  abbrev pub init_exp : Option A → Map A → Result ExptConfig
  init_exp none arg_map = exits missing_arguments
  init_exp (some a) arg_map = init_type (exec_model (atoi a)) arg_map

  unfoldable pub init_config : Map A → Result ExptConfig
  init_config arg_map = init_exp (find exp_type_code arg_map) arg_map

  -- The constructor.
  unfoldable pub expt_config : List (Found A) → Result ExptConfig
  expt_config found = elim (read_args found []) [
    | exits e ↦ exits e
    | done arg_map ↦ init_config arg_map
  ]
