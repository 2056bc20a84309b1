-- ===== src/Logger.antt =====
-- pkg/logger/logger.go: a logger that is shared by pointer. The methods WithValues and WithName change
-- the logger that they are called on, so they are actions on a shared object.
use cluster_api_provider_cce.Prelude.{ℕ, String, List}
use cluster_api_provider_cce.Errors.{Error}
use cluster_api_provider_cce.Go.{M, get_obj, modify, emit, pure, ◌>>=◌}

-- github.com/go-logr/logr and klog, as far as the code uses them. `L` is logr.Logger, a value.
pub record Logr (L : Type 0) : Type 0 where
  pub with_values : List (String × String) → L → L
  pub with_name : String → L → L
  pub at_level : ℕ → L → L  -- V
  pub k_ref : String → String → String  -- klog.KRef, of a namespace and a name

-- What a logger writes: the message, with the logr.Logger that it is written through.
pub data Entry (L : Type 0) : Type 0 where
  line : L → String → Entry L
  failure : L → Error → String → Entry L

abbrev pub log_level_debug : ℕ
log_level_debug = 2

abbrev pub log_level_warn : ℕ
log_level_warn = 3

abbrev pub log_level_trace : ℕ
log_level_trace = 4

pub record Logger (L : Type 0) : Type 0 where
  pub logger : L

unfoldable pub new_logger : {L : Type 0} → L → Logger L
new_logger log = record { logger = log }

-- FromContext, with logr.FromContextOrDiscard as a parameter
unfoldable pub from_context : {X L : Type 0} → (X → L) → X → Logger L
from_context from_context_or_discard ctx = record { logger = from_context_or_discard ctx }

module _ {W E L : Type 0} (logr : Logr L) where
  unfoldable pub with_values : List (String × String) → M W E (Logger L) (Unit {0})
  with_values pairs = modify (λ c. record { logger = logr.with_values pairs c.logger })

  unfoldable pub with_name : String → M W E (Logger L) (Unit {0})
  with_name name = modify (λ c. record { logger = logr.with_name name c.logger })

module _ {W L : Type 0} (logr : Logr L) where
  unfoldable pub info : String → M W (Entry L) (Logger L) (Unit {0})
  info msg = do c ← get_obj; emit (Entry.line c.logger msg)

  unfoldable pub get_logger : M W (Entry L) (Logger L) L
  get_logger = do c ← get_obj; pure c.logger

  unfoldable pub log_at : ℕ → String → M W (Entry L) (Logger L) (Unit {0})
  log_at level msg = do c ← get_obj; emit (Entry.line (logr.at_level level c.logger) msg)

  unfoldable pub debug : String → M W (Entry L) (Logger L) (Unit {0})
  debug msg = log_at log_level_debug msg

  unfoldable pub warn : String → M W (Entry L) (Logger L) (Unit {0})
  warn msg = log_at log_level_warn msg

  unfoldable pub trace : String → M W (Entry L) (Logger L) (Unit {0})
  trace msg = log_at log_level_trace msg

  unfoldable pub error : Error → String → M W (Entry L) (Logger L) (Unit {0})
  error e msg = do c ← get_obj; emit (Entry.failure c.logger e msg)
