-- ===== src/Collector/Marking.antt =====
-- `mark_children` of libquickjs-sys/embed/quickjs/quickjs.c: the GC objects that an object of each
-- type refers to. A header pointer is a number, and the memory behind it is a payload.
use quickjs_rs.Base.{ℕ, Option, none, some, List, [], ◌∷◌, ◌++◌, Bool, ◌==◌, if◌then◌else◌}
use quickjs_rs.Base.Partial.{◌>>=◌, ◌>>◌, check}

-- A JSValue by its tag: two tags are of GC objects, others are counted only, others are no pointers.
pub data Value : Type 0 where
  object : ℕ → Value
  function_bytecode : ℕ → Value
  counted : ℕ → Value
  immediate : ℕ → Value

-- The union of a JSProperty, by the type in its flags.
pub data Slot : Type 0 where
  normal : Value → Slot
  getset : Option ℕ → Option ℕ → Slot
  var_slot : ℕ → Slot
  autoinit : ℕ → Slot

-- A property with its entry of the shape.
pub record Property : Type 0 where
  pub atom : ℕ
  pub slot : Slot

pub data ExportEntry : Type 0 where
  local : Option ℕ → ExportEntry
  indirect : ℕ → ExportEntry

pub record ModuleDef : Type 0 where
  pub export_entries : List ExportEntry
  pub module_ns : Value
  pub func_obj : Value
  pub eval_exception : Value
  pub meta_obj : Value

-- `cur_sp` is the part of the frame below the pointer, if that is not NULL.
pub record AsyncFunctionState : Type 0 where
  pub cur_func : Value
  pub this_val : Value
  pub stack_to_cur_sp : Option (List Value)

-- The values of a context that are marked one by one, in the order in which they are.
pub record JsContext : Type 0 where
  pub loaded_modules : List ModuleDef
  pub globals : List Value
  pub native_error_proto : List Value
  pub class_proto : List Value
  pub intrinsics : List Value
  pub array_shape : Option ℕ

pub data Payload : Type 0 where
  js_object : ℕ → List Property → ℕ → Payload
  bytecode : List Value → Option ℕ → Payload
  shape : Option ℕ → Payload
  var_ref : Value → Payload
  async_function : Bool → AsyncFunctionState → Value → Value → Payload
  js_context : JsContext → Payload
  unknown : ℕ → Payload

-- What the collector reads besides the counts, the marks and the lists. `class_gc_mark` is
-- `class_array[].gc_mark`: NULL, or the objects that the class marks for an object.
pub record Objects : Type 0 where
  pub payload : ℕ → Payload
  pub is_detached : ℕ → Bool
  pub class_gc_mark : ℕ → Option (ℕ → List ℕ)

-- A pointer that may be NULL.
unfoldable pub mark_opt : Option ℕ → List ℕ
mark_opt none = []
mark_opt (some p) = p ∷ []

unfoldable pub mark_value : Value → List ℕ
mark_value (object p) = p ∷ []
mark_value (function_bytecode p) = p ∷ []
mark_value (counted p) = []
mark_value (immediate n) = []

unfoldable pub mark_values : List Value → List ℕ
unfolding mark_value
mark_values [] = []
mark_values (v ∷ vs) = mark_value v ++ mark_values vs

module _ (m : Objects) where
  unfoldable pub mark_slot : Slot → List ℕ
  unfolding mark_opt mark_value
  mark_slot (normal v) = mark_value v
  mark_slot (getset getter setter) = mark_opt getter ++ mark_opt setter
  mark_slot (var_slot v) = if m.is_detached v then v ∷ [] else []
  mark_slot (autoinit realm) = realm ∷ []

  -- An entry whose atom is JS_ATOM_NULL is a deleted property.
  unfoldable pub mark_properties : List Property → List ℕ
  unfolding mark_slot
  mark_properties [] = []
  mark_properties (pr ∷ prs) =
      (if pr.atom == 0 then [] else mark_slot pr.slot) ++ mark_properties prs

  -- Class 1 is JS_CLASS_OBJECT.
  unfoldable pub mark_class : ℕ → ℕ → List ℕ
  mark_class p class_id =
      if class_id == 1
      then []
      else elim (m.class_gc_mark class_id) [ none ↦ [] | some gc_mark ↦ gc_mark p ]

unfoldable pub mark_exports : List ExportEntry → List ℕ
unfolding mark_opt
mark_exports [] = []
mark_exports (local v ∷ es) = mark_opt v ++ mark_exports es
mark_exports (indirect n ∷ es) = mark_exports es

unfoldable pub mark_module_def : ModuleDef → List ℕ
unfolding mark_exports mark_values
mark_module_def d =
    mark_exports d.export_entries
    ++ mark_values (d.module_ns ∷ d.func_obj ∷ d.eval_exception ∷ d.meta_obj ∷ [])

unfoldable pub mark_modules : List ModuleDef → List ℕ
unfolding mark_module_def
mark_modules [] = []
mark_modules (d ∷ ds) = mark_module_def d ++ mark_modules ds

unfoldable pub mark_context : JsContext → List ℕ
unfolding mark_modules mark_values mark_opt
mark_context ctx =
    mark_modules ctx.loaded_modules
    ++ mark_values ctx.globals
    ++ mark_values ctx.native_error_proto
    ++ mark_values ctx.class_proto
    ++ mark_values ctx.intrinsics
    ++ mark_opt ctx.array_shape

unfoldable pub async_func_mark : AsyncFunctionState → List ℕ
unfolding mark_value mark_values
async_func_mark s =
    mark_value s.cur_func
    ++ mark_value s.this_val
    ++ elim s.stack_to_cur_sp [ none ↦ [] | some vs ↦ mark_values vs ]

-- The objects that `mark_children` calls `mark_func` for, in order; none where it aborts.
unfoldable pub children : Objects → ℕ → Option (List ℕ)
unfolding mark_properties mark_class mark_values mark_value mark_opt async_func_mark mark_context
children m gp = elim (m.payload gp) [
  | js_object sh prop class_id ↦ some ((sh ∷ mark_properties m prop) ++ mark_class m gp class_id)
  | bytecode cpool realm ↦ some (mark_values cpool ++ mark_opt realm)
  | shape proto ↦ some (mark_opt proto)
  | var_ref value ↦ check (m.is_detached gp) >> some (mark_value value)
  | async_function is_active func_state resolve reject ↦ some (
      (if is_active then async_func_mark func_state else []) ++ mark_values (resolve ∷ reject ∷ []))
  | js_context ctx ↦ some (mark_context ctx)
  | unknown type ↦ none
]

-- The calls of `mark_func` in turn, on the state that it changes.
unfoldable pub mark_each {ℓ} : {S : Type ℓ} → (ℕ → S → Option S) → List ℕ → S → Option S
mark_each mark_func [] s = some s
mark_each mark_func (p ∷ ps) s = mark_func p s >>= mark_each mark_func ps

unfoldable pub mark_children {ℓ} : {S : Type ℓ} → Objects → ℕ → (ℕ → S → Option S) → S → Option S
unfolding children mark_each
mark_children m gp mark_func s = children m gp >>= λ ps. mark_each mark_func ps s
