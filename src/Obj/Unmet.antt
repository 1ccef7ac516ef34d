-- ===== src/Obj/Unmet.antt =====
-- x_obj_alloc of src/x-obj.c with a full base when there is no memory.
use x_expr.Prelude.{ℕ, ◌+◌, ◌*◌, ◌%◌, ◌^◌, ◌≡◌, ◌≢◌, ◌==◌, sym, ◌∙◌}
use x_expr.Memory.{Word, Ptr, null, Obj, State, ok}
use x_expr.Sys.{System, x_sys_malloc}
use x_expr.Obj.{x_obj_size, x_obj_meta_len, x_obj_isnil}
use x_expr.Obj.Alloc.{Config, report_and_exit, allocate, x_obj_alloc}
use x_expr.Obj.Full.{Full, Room, below_ceiling}
use x_expr.Obj.Ceiling.{stopped, stopped_nowhere, guarded, direct_report}

module _ (sys : System) {s : State} {base : Ptr} {c : Config} {n : Word} {a : Ptr} {ao bo : Obj}
    (full : Full s base c n a ao bo) (type : Ptr) (flags units : ℕ) (room : Room c.limit n)
    (unmet : sys.malloc s (x_obj_size * (c.extra + x_obj_meta_len + units) % 2 ^ 64) ≡ null) where
  -- Without memory the message is reported directly, and the process stops.
  pub alloc-unmet :
      x_obj_alloc sys base type flags units s ≡ stopped c.message (direct_report sys c.message) s
  unfolding x_obj_alloc allocate x_sys_malloc report_and_exit x_obj_isnil
  alloc-unmet =
      rw (full.configured, room.0, below_ceiling sys full room, unmet, full.is_full)
        (guarded (c.message == null) (direct_report sys c.message) s)

  pub alloc_unmet-nowhere : {p : Ptr} {t : State} → x_obj_alloc sys base type flags units s ≢ ok p t
  alloc_unmet-nowhere h =
      stopped_nowhere (c.message == null) s (direct_report sys c.message s) (sym alloc-unmet ∙ h)
