-- ===== src/Startup/Conditions/Walking.antt =====
-- What walkExpr of lib/conditions.go reaches.
-- The expressions that stand in an expression, itself with them.
use wpoven_nobot.Startup.Conditions.{
  Expr, unspecified, string_literal, other_literal, ident, call_expr, comprehension_expr, list_expr,
  map_expr, select_expr, struct_expr, Exprs, no_exprs, arg, Entries, no_entries, map_entry,
  struct_field, walk_expr, walk_args, walk_entries,
}
use wpoven_nobot.Base.{Text}

mutual
  pub data Inside : Expr → Expr → Type 0 where
    here : {e : Expr} → Inside e e
    in_target :
        {x target : Expr} {name : Text} {args : Exprs}
        → Inside x target
        → Inside x (call_expr name target args)
    in_args :
        {x target : Expr} {name : Text} {args : Exprs}
        → InsideArgs x args
        → Inside x (call_expr name target args)
    in_range : {x a b c d e : Expr} → Inside x a → Inside x (comprehension_expr a b c d e)
    in_init : {x a b c d e : Expr} → Inside x b → Inside x (comprehension_expr a b c d e)
    in_condition : {x a b c d e : Expr} → Inside x c → Inside x (comprehension_expr a b c d e)
    in_step : {x a b c d e : Expr} → Inside x d → Inside x (comprehension_expr a b c d e)
    in_result : {x a b c d e : Expr} → Inside x e → Inside x (comprehension_expr a b c d e)
    in_list : {x : Expr} {es : Exprs} → InsideArgs x es → Inside x (list_expr es)
    in_map : {x : Expr} {es : Entries} → InsideEntries x es → Inside x (map_expr es)
    in_operand : {x e : Expr} → Inside x e → Inside x (select_expr e)
    in_struct : {x : Expr} {es : Entries} → InsideEntries x es → Inside x (struct_expr es)

  pub data InsideArgs : Expr → Exprs → Type 0 where
    in_first : {x e : Expr} {es : Exprs} → Inside x e → InsideArgs x (arg e es)
    in_rest : {x e : Expr} {es : Exprs} → InsideArgs x es → InsideArgs x (arg e es)

  pub data InsideEntries : Expr → Entries → Type 0 where
    in_key : {x k v : Expr} {es : Entries} → Inside x k → InsideEntries x (map_entry k v es)
    in_value : {x k v : Expr} {es : Entries} → Inside x v → InsideEntries x (map_entry k v es)
    in_field : {x v : Expr} {es : Entries} → Inside x v → InsideEntries x (struct_field v es)
    in_more :
        {x k v : Expr} {es : Entries} → InsideEntries x es → InsideEntries x (map_entry k v es)
    in_others :
        {x v : Expr} {es : Entries} → InsideEntries x es → InsideEntries x (struct_field v es)

module _ {ℓ κ} {S : Type ℓ} (f : Expr → S → S) (P : S → Type κ) where
  -- What no expression breaks, the walk keeps.
  mutual
    unfolding walk_expr walk_args walk_entries

    pub walk_expr_keeps :
        ((e : Expr) (s : S) → P s → P (f e s)) → (e : Expr) (s : S) → P s → P (walk_expr f e s)
    walk_expr_keeps keeps unspecified s p = keeps unspecified s p
    walk_expr_keeps keeps (string_literal t) s p = keeps (string_literal t) s p
    walk_expr_keeps keeps other_literal s p = keeps other_literal s p
    walk_expr_keeps keeps (ident t) s p = keeps (ident t) s p
    walk_expr_keeps keeps (call_expr name target args) s p =
        walk_args_keeps keeps args _ (walk_expr_keeps keeps target _ (keeps _ s p))
    walk_expr_keeps keeps (comprehension_expr a b c d e) s p = walk_expr_keeps keeps d _ (
        walk_expr_keeps keeps c _ (
          walk_expr_keeps keeps b _
            (walk_expr_keeps keeps a _ (walk_expr_keeps keeps e _ (keeps _ s p)))))
    walk_expr_keeps keeps (list_expr es) s p = walk_args_keeps keeps es _ (keeps _ s p)
    walk_expr_keeps keeps (map_expr es) s p = walk_entries_keeps keeps es _ (keeps _ s p)
    walk_expr_keeps keeps (select_expr e) s p = walk_expr_keeps keeps e _ (keeps _ s p)
    walk_expr_keeps keeps (struct_expr es) s p = walk_entries_keeps keeps es _ (keeps _ s p)

    pub walk_args_keeps :
        ((e : Expr) (s : S) → P s → P (f e s)) → (es : Exprs) (s : S) → P s → P (walk_args f es s)
    walk_args_keeps keeps no_exprs s p = p
    walk_args_keeps keeps (arg e es) s p = walk_args_keeps keeps es _ (walk_expr_keeps keeps e s p)

    pub walk_entries_keeps :
        ((e : Expr) (s : S) → P s → P (f e s))
        → (es : Entries) (s : S) → P s
        → P (walk_entries f es s)
    walk_entries_keeps keeps no_entries s p = p
    walk_entries_keeps keeps (map_entry k v es) s p =
        walk_entries_keeps keeps es _ (walk_expr_keeps keeps v _ (walk_expr_keeps keeps k s p))
    walk_entries_keeps keeps (struct_field v es) s p =
        walk_entries_keeps keeps es _ (walk_expr_keeps keeps v s p)

  walk_expr_after :
      ((e : Expr) (s : S) → P s → P (f e s)) → (e : Expr) (s : S) → P (f e s) → P (walk_expr f e s)
  unfolding walk_expr walk_args walk_entries
  walk_expr_after keeps unspecified s p = p
  walk_expr_after keeps (string_literal t) s p = p
  walk_expr_after keeps other_literal s p = p
  walk_expr_after keeps (ident t) s p = p
  walk_expr_after keeps (call_expr name target args) s p =
      walk_args_keeps keeps args _ (walk_expr_keeps keeps target _ p)
  walk_expr_after keeps (comprehension_expr a b c d e) s p = walk_expr_keeps keeps d _ (
      walk_expr_keeps keeps c _
        (walk_expr_keeps keeps b _ (walk_expr_keeps keeps a _ (walk_expr_keeps keeps e _ p))))
  walk_expr_after keeps (list_expr es) s p = walk_args_keeps keeps es _ p
  walk_expr_after keeps (map_expr es) s p = walk_entries_keeps keeps es _ p
  walk_expr_after keeps (select_expr e) s p = walk_expr_keeps keeps e _ p
  walk_expr_after keeps (struct_expr es) s p = walk_entries_keeps keeps es _ p

module _ {ℓ κ} {S : Type ℓ} (f : Expr → S → S) (P Q : S → Type κ)
    (keeps_p : (e : Expr) (s : S) → P s → P (f e s))
    (keeps_q : (e : Expr) (s : S) → Q s → Q (f e s)) (x : Expr)
    (reached : (s : S) → Q s → P (f x s)) where
  -- What the function brings about at an expression holds after the walk over one in which it stands.
  mutual
    unfolding walk_expr walk_args walk_entries

    pub walk_expr_reaches : {e : Expr} → Inside x e → (s : S) → Q s → P (walk_expr f e s)
    walk_expr_reaches here s q = walk_expr_after f P keeps_p _ s (reached s q)
    walk_expr_reaches (in_target {target = t} {args = es} i) s q =
        walk_args_keeps f P keeps_p es _ (walk_expr_reaches i _ (keeps_q _ s q))
    walk_expr_reaches (in_args {target = t} i) s q =
        walk_args_reaches i _ (walk_expr_keeps f Q keeps_q t _ (keeps_q _ s q))
    walk_expr_reaches (in_range {a = a} {b = b} {c = c} {d = d} {e = e} i) s q =
        walk_expr_keeps f P keeps_p d _ (
          walk_expr_keeps f P keeps_p c _ (
            walk_expr_keeps f P keeps_p b _
              (walk_expr_reaches i _ (walk_expr_keeps f Q keeps_q e _ (keeps_q _ s q)))))
    walk_expr_reaches (in_init {a = a} {b = b} {c = c} {d = d} {e = e} i) s q =
        walk_expr_keeps f P keeps_p d _ (
          walk_expr_keeps f P keeps_p c _ (
            walk_expr_reaches i _
              (walk_expr_keeps f Q keeps_q a _ (walk_expr_keeps f Q keeps_q e _ (keeps_q _ s q)))))
    walk_expr_reaches (in_condition {a = a} {b = b} {c = c} {d = d} {e = e} i) s q =
        walk_expr_keeps f P keeps_p d _ (
          walk_expr_reaches i _ (
            walk_expr_keeps f Q keeps_q b _
              (walk_expr_keeps f Q keeps_q a _ (walk_expr_keeps f Q keeps_q e _ (keeps_q _ s q)))))
    walk_expr_reaches (in_step {a = a} {b = b} {c = c} {d = d} {e = e} i) s q =
        walk_expr_reaches i _ (
          walk_expr_keeps f Q keeps_q c _ (
            walk_expr_keeps f Q keeps_q b _
              (walk_expr_keeps f Q keeps_q a _ (walk_expr_keeps f Q keeps_q e _ (keeps_q _ s q)))))
    walk_expr_reaches (in_result {a = a} {b = b} {c = c} {d = d} {e = e} i) s q =
        walk_expr_keeps f P keeps_p d _ (
          walk_expr_keeps f P keeps_p c _ (
            walk_expr_keeps f P keeps_p b _
              (walk_expr_keeps f P keeps_p a _ (walk_expr_reaches i _ (keeps_q _ s q)))))
    walk_expr_reaches (in_list i) s q = walk_args_reaches i _ (keeps_q _ s q)
    walk_expr_reaches (in_map i) s q = walk_entries_reaches i _ (keeps_q _ s q)
    walk_expr_reaches (in_operand i) s q = walk_expr_reaches i _ (keeps_q _ s q)
    walk_expr_reaches (in_struct i) s q = walk_entries_reaches i _ (keeps_q _ s q)

    pub walk_args_reaches : {es : Exprs} → InsideArgs x es → (s : S) → Q s → P (walk_args f es s)
    walk_args_reaches (in_first {es = es} i) s q =
        walk_args_keeps f P keeps_p es _ (walk_expr_reaches i s q)
    walk_args_reaches (in_rest {e = e} i) s q =
        walk_args_reaches i _ (walk_expr_keeps f Q keeps_q e s q)

    pub walk_entries_reaches :
        {es : Entries} → InsideEntries x es → (s : S) → Q s → P (walk_entries f es s)
    walk_entries_reaches (in_key {v = v} {es = es} i) s q =
        walk_entries_keeps f P keeps_p es _
          (walk_expr_keeps f P keeps_p v _ (walk_expr_reaches i s q))
    walk_entries_reaches (in_value {k = k} {es = es} i) s q =
        walk_entries_keeps f P keeps_p es _
          (walk_expr_reaches i _ (walk_expr_keeps f Q keeps_q k s q))
    walk_entries_reaches (in_field {es = es} i) s q =
        walk_entries_keeps f P keeps_p es _ (walk_expr_reaches i s q)
    walk_entries_reaches (in_more {k = k} {v = v} i) s q =
        walk_entries_reaches i _
          (walk_expr_keeps f Q keeps_q v _ (walk_expr_keeps f Q keeps_q k s q))
    walk_entries_reaches (in_others {v = v} i) s q =
        walk_entries_reaches i _ (walk_expr_keeps f Q keeps_q v s q)
