-- ===== src/Source/Exec.antt =====
-- extension-sdk-mongodb/src/source_stage.rs: the executable stage, from exec_alloc to
-- exec_destroy. A pointer is an option, and the handle of a metrics document is left out.
pub mod Generator
pub mod Ended
pub mod Passthrough
pub mod Balance
use rust_sdk_mongodb_extensi.Prelude.{
  ℕ, zero, suc, String, Bool, true, false, not, ◌&&◌, if◌then◌else◌, Option, none, some, List, [],
  ◌∷◌, ◌==◌,
}
use rust_sdk_mongodb_extensi.Prelude.Int.{ℤ, pos, negsuc}
use rust_sdk_mongodb_extensi.Errors.{
  Message, text, ExtensionError, failed_to_parse, runtime, ExtensionResult, Result, ok, err, ◌>>=◌,
  map_err,
}
use rust_sdk_mongodb_extensi.Bson.{Bson, boolean, Document, get}
use rust_sdk_mongodb_extensi.Stage.{Next, advanced, eof}
use rust_sdk_mongodb_extensi.Source.Ops.{
  CatalogContext, Caught, Bytes, Codec, Code, k_advanced, k_eof, k_pause_execution, Container,
  empty_view, byte_buf, GetNextResult, Status, Returned, status_ok, upstream_status,
  into_raw_status, SourceOps,
}

-- MODE_INIT, MODE_PASSTHROUGH and MODE_GENERATOR
pub data Mode : Type 0 where
  init : Mode
  passthrough : Mode
  generator : Mode

abbrev pub set_eof_empty : GetNextResult
set_eof_empty = record { code = k_eof; result_document = empty_view; result_metadata = empty_view }

-- Document::get_bool with a default.
abbrev get_bool_or : Bool → Option Bson → Bool
get_bool_or default (some (boolean b)) = b
get_bool_or default _ = default

abbrev pub requires_input_of : Document → Bool
requires_input_of d = get_bool_or true (get "requiresInputDocSource" d)

-- The test of an upstream status: null, or one whose code is OK.
abbrev pub is_failure : Option Status → Option Status
is_failure none = none
is_failure (some st) = elim st.get_code [ pos zero ↦ none | _ ↦ some st ]

-- byte_buf::from_bson, its error as FailedToParse.
abbrev pub encode : Codec → Document → ExtensionResult Container
encode codec d = map_err failed_to_parse (codec.to_writer d) >>= λ bytes. ok (byte_buf bytes)

abbrev pub encode_metadata : Codec → Option Document → ExtensionResult Container
encode_metadata codec none = ok empty_view
encode_metadata codec (some d) = encode codec d

-- The result for a row of the generator.
unfoldable pub advanced_result : Codec → Document → Option Document → ExtensionResult GetNextResult
advanced_result codec document metadata = do
  raw ← encode codec document
  meta ← encode_metadata codec metadata
  ok (record { code = k_advanced; result_document = raw; result_metadata = meta })

module _ (ops : SourceOps) (codec : Codec) where
  open ops use {
    World, State, Upstream, static_properties_doc, open_from_doc, drop_state, next, get_next,
  }

  pub record ExecObj : Type 0 where
    pub args : Bytes
    pub catalog : Option CatalogContext
    pub source : Option Upstream
    pub state : Option State
    pub generator_done : Bool
    pub mode : Mode
    pub saw_upstream_advanced : Bool

  unfoldable pub exec_alloc : Bytes → Option CatalogContext → ExecObj
  exec_alloc args catalog = record {
    args = args;
    catalog = catalog;
    source = none;
    state = none;
    generator_done = false;
    mode = init;
    saw_upstream_advanced = false;
  }

  unfoldable pub exec_set_source : Upstream → ExecObj → ExecObj
  exec_set_source src this = record this { source = some src }

  unfoldable pub exec_destroy : ExecObj → World → World
  exec_destroy this w = elim this.state [ none ↦ w | some st ↦ drop_state st w ]

  -- What a call leaves behind: what it returns, the result that it was given, the stage, the world.
  abbrev pub Left : Type 0
  Left = ((Returned × GetNextResult) × ExecObj) × World

  abbrev pub failed : ExtensionError → GetNextResult → ExecObj → World → Left
  failed e res this w = (((into_raw_status e, res), this), w)

  abbrev pub panic_error : ExtensionError
  panic_error = runtime (text "panic during source stage get_next" ∷ [])

  -- A row of the generator is written to the result once both its documents are encoded.
  abbrev pub write_row :
      ExecObj → GetNextResult → State → World → ExtensionResult GetNextResult → Left
  write_row this res st w (ok row) = (((status_ok, row), record this { state = some st }), w)
  write_row this res st w (err e) = failed e res (record this { state = some st }) w

  -- The end of the generator's closure: what is done with what the hook `next` gave.
  abbrev pub deliver : ExecObj → GetNextResult → State → Caught Next → World → Left
  deliver this res st none w = failed panic_error res (record this { state = some st }) w
  deliver this res st (some (err e)) w = failed e res (record this { state = some st }) w
  deliver this res st (some (ok eof)) w = (
    ((status_ok, set_eof_empty), record this { state = none; generator_done = true }),
    drop_state st w,
  )
  deliver this res st (some (ok (advanced document metadata))) w =
      write_row this res st w (advanced_result codec document metadata)

  abbrev pub step_open : ExecObj → GetNextResult → State → World → Left
  step_open this res st w =
      let ((st', out), w') = next st this.catalog w in deliver this res st' out w'

  abbrev pub open_then : ExecObj → GetNextResult → Caught State × World → Left
  open_then this res (none, w) = failed panic_error res this w
  open_then this res (some (err e), w) = failed e res this w
  open_then this res (some (ok st), w) = step_open this res st w

  abbrev pub open_or_step : ExecObj → GetNextResult → Document → World → Option State → Left
  open_or_step this res args_doc w (some st) = step_open this res st w
  open_or_step this res args_doc w none = open_then this res (open_from_doc args_doc this.catalog w)

  -- The closure: the arguments are decoded on every call, and the state is opened on the first.
  abbrev pub generate_from : ExecObj → GetNextResult → Result Message Document → World → Left
  generate_from this res (err m) w = failed (failed_to_parse m) res this w
  generate_from this res (ok args_doc) w = open_or_step this res args_doc w this.state

  unfoldable pub generate : ExecObj → GetNextResult → World → Left
  unfolding advanced_result
  generate this res w =
      if this.generator_done
      then (((status_ok, set_eof_empty), this), w)
      else generate_from this res (codec.from_reader this.args) w

  -- A row of the upstream stage in MODE_PASSTHROUGH.
  abbrev pub forward : ExecObj → GetNextResult → World → Option Status → Left
  forward this res w (some bad) = (((upstream_status bad, res), this), w)
  forward this res w none = (((status_ok, res), this), w)

  abbrev pub probed : ExecObj → GetNextResult → Code → World → Left
  probed this res k_advanced w =
      (((status_ok, res), record this { saw_upstream_advanced = true; mode = passthrough }), w)
  probed this res k_pause_execution w = (((status_ok, res), this), w)
  probed this res k_eof w =
      if this.saw_upstream_advanced
      then (((status_ok, res), this), w)
      else generate (record this { mode = generator }) res w

  -- The first rows of the upstream stage, in MODE_INIT.
  abbrev pub probe : ExecObj → GetNextResult → World → Option Status → Left
  probe this res w (some bad) = (((upstream_status bad, res), this), w)
  probe this res w none = probed this res res.code w

  -- The body of the call after the mode is settled.
  abbrev pub dispatch : ExecObj → GetNextResult → World → Mode → Option Upstream → Left
  dispatch this res w passthrough (some src) =
      let ((st, res'), w') = get_next src res w in forward this res' w' (is_failure st)
  dispatch this res w passthrough none = (((status_ok, res), this), w)
  dispatch this res w init (some src) =
      let ((st, res'), w') = get_next src res w in probe this res' w' (is_failure st)
  dispatch this res w init none = generate (record this { mode = generator }) res w
  dispatch this res w generator src = generate this res w

  abbrev pub properties_panic : ExtensionError
  properties_panic = runtime (text "panic during source properties" ∷ [])

  abbrev pub settle : ExecObj → GetNextResult → World → Mode → Option Document → Left
  settle this res w init none = failed properties_panic res this w
  settle this res w init (some properties) =
      if requires_input_of properties
      then dispatch this res w init this.source
      else dispatch (record this { mode = generator }) res w generator this.source
  settle this res w passthrough properties = dispatch this res w passthrough this.source
  settle this res w generator properties = dispatch this res w generator this.source

  unfoldable pub exec_get_next : ExecObj → GetNextResult → World → Left
  unfolding get
  exec_get_next this res w = settle this res w this.mode static_properties_doc

  -- The host's calls of get_next, one after another.
  unfoldable pub run :
      ℕ → ExecObj → GetNextResult → World → (List (Returned × GetNextResult) × ExecObj) × World
  run zero this res w = (([], this), w)
  run (suc n) this res w =
      let ((r, this'), w') = exec_get_next this res w in
      let ((rs, this''), w'') = run n this' r.1 w' in ((r ∷ rs, this''), w'')
