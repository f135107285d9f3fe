-- ===== src/Startup/Conditions.antt =====
-- lib/conditions.go: the walk over the expression of a condition, which loads the networks that it
-- names, and the function that tests an address against a network. A network of the policy is loaded
-- when it is first asked for, as `sync.OnceValue` does.
pub mod Walking
pub mod Preloading
use wpoven_nobot.Base.{
  text_equality, Text, Option, List, if◌then◌else◌, ascii, ◌==◌, lookup, insert, Bool, true, false,
  not, ◌&&◌, none, some,
}
use wpoven_nobot.Text.{after}
use wpoven_nobot.Policy.Networks.{IpNet}

-- the expressions of the package cel-go, with the empty one that stands for the target of a call that
-- is no method
mutual
  pub data Expr : Type 0 where
    unspecified : Expr
    string_literal : Text → Expr
    other_literal : Expr
    ident : Text → Expr
    call_expr : Text → Expr → Exprs → Expr
    comprehension_expr : Expr → Expr → Expr → Expr → Expr → Expr
    list_expr : Exprs → Expr
    map_expr : Entries → Expr
    select_expr : Expr → Expr
    struct_expr : Entries → Expr

  pub data Exprs : Type 0 where
    no_exprs : Exprs
    arg : Expr → Exprs → Exprs

  pub data Entries : Type 0 where
    no_entries : Entries
    map_entry : Expr → Expr → Entries → Entries
    struct_field : Expr → Entries → Entries

abbrev pub is_member_function : Expr → Bool
is_member_function unspecified = false
is_member_function _ = true

-- walkExpr, for a function that changes a state; a comprehension has its range, the start, the
-- condition and the step of its loop, and its result
unfoldable mutual
  pub walk_expr {ℓ} : {S : Type ℓ} → (Expr → S → S) → Expr → S → S
  walk_expr f (call_expr name target args) s =
      walk_args f args (walk_expr f target (f (call_expr name target args) s))
  walk_expr f (comprehension_expr iter_range accu_init condition step result) s = walk_expr f step (
      walk_expr f condition (
        walk_expr f accu_init (
          walk_expr f iter_range (
            walk_expr f result
              (f (comprehension_expr iter_range accu_init condition step result) s)))))
  walk_expr f (list_expr elements) s = walk_args f elements (f (list_expr elements) s)
  walk_expr f (map_expr entries) s = walk_entries f entries (f (map_expr entries) s)
  walk_expr f (select_expr operand) s = walk_expr f operand (f (select_expr operand) s)
  walk_expr f (struct_expr fields) s = walk_entries f fields (f (struct_expr fields) s)
  walk_expr f e s = f e s

  -- the loops over arguments and elements
  pub walk_args {ℓ} : {S : Type ℓ} → (Expr → S → S) → Exprs → S → S
  walk_args f no_exprs s = s
  walk_args f (arg e es) s = walk_args f es (walk_expr f e s)

  -- the loops over the entries of a map and the fields of a struct
  pub walk_entries {ℓ} : {S : Type ℓ} → (Expr → S → S) → Entries → S → S
  walk_entries f no_entries s = s
  walk_entries f (map_entry key value entries) s =
      walk_entries f entries (walk_expr f value (walk_expr f key s))
  walk_entries f (struct_field value entries) s = walk_entries f entries (walk_expr f value s)

-- State.networks: under a name `none` before the network is loaded, and then its ranger
abbrev pub Networks {ℓ} : Type ℓ → Type ℓ
Networks R = List (Text × Option R)

module _ {ℓ} {R : Type ℓ} where
  -- the call of the function under a name, which loads the network once; `none` without a network of
  -- this name
  abbrev pub asked : (Text → R) → Text → Networks R → Option (Option R) → Option R × Networks R
  asked loads name nets none = (none, nets)
  asked loads name nets (some (some r)) = (some r, nets)
  asked loads name nets (some none) = (some (loads name), insert name (some (loads name)) nets)

  unfoldable pub ask : (Text → R) → Text → Networks R → Option R × Networks R
  ask loads name nets = asked loads name nets (lookup name nets)

  -- the literal that is loaded beforehand
  abbrev pub preload_literal : (Text → R) → Expr → Networks R → Networks R
  preload_literal loads (string_literal name) nets = (ask loads name nets).1
  preload_literal loads _ nets = nets

  -- the arguments of a call that is no method
  abbrev pub preload_in_network : (Text → R) → Exprs → Networks R → Networks R
  preload_in_network loads (arg a (arg b no_exprs)) nets = preload_literal loads b nets
  preload_in_network loads _ nets = nets

  -- the arguments of a method
  abbrev pub preload_network : (Text → R) → Exprs → Networks R → Networks R
  preload_network loads (arg a no_exprs) nets = preload_literal loads a nets
  preload_network loads _ nets = nets

  -- the function that RegisterCondition gives to walkExpr
  unfoldable pub preload : (Text → R) → Expr → Networks R → Networks R
  unfolding ask
  preload loads (call_expr name target args) nets =
      if name == ascii "inNetwork" && not (is_member_function target)
      then preload_in_network loads args nets
      else if name == ascii "network" && is_member_function target
      then preload_network loads args nets
      else nets
  preload loads e nets = nets

-- what a compiled condition gives out
pub data OutputType : Type 0 where
  no_output bool_output other_output : OutputType

-- `cel.Ast`
pub record Ast : Type 0 where
  pub root : Expr
  pub output : OutputType

module _ {ℓ κ} {R : Type ℓ} {P : Type κ} where
  -- the test of the output, and what follows it; `program_ast` is ProgramAst of the package http-cel
  abbrev register_ast :
      (Text → R) → (Ast → Option P) → Ast → OutputType → Networks R → Option P × Networks R
  register_ast loads program_ast tree bool_output nets =
      (program_ast tree, walk_expr (preload loads) tree.root nets)
  register_ast loads program_ast tree _ nets = (none, nets)

  -- State.RegisterCondition, with NewAst of http-cel applied; `none` for an error
  unfoldable pub register_condition :
      (Text → R) → (Ast → Option P) → Option Ast → Networks R → Option P × Networks R
  unfolding walk_expr preload
  register_condition loads program_ast none nets = (none, nets)
  register_condition loads program_ast (some tree) nets =
      register_ast loads program_ast tree tree.output nets

-- What the test of an address calls: Contains of a ranger, `none` for an error, ParseCIDR, and
-- Contains of a prefix.
pub record Tests {ℓ} (R : Type ℓ) : Type ℓ where
  pub contains : R → Text → Option Bool
  pub parse_cidr : Text → Option IpNet
  pub net_contains : IpNet → Text → Bool

module _ {ℓ} {R : Type ℓ} where
  -- the answer without a network of the name: the name is a prefix itself
  abbrev contains_cidr : Tests R → Text → Option IpNet → Option Bool
  contains_cidr t ip none = none
  contains_cidr t ip (some net) = some (t.net_contains net ip)

  abbrev network_answer : Tests R → Text → Text → Option R → Option Bool
  network_answer t ip name none = contains_cidr t ip (t.parse_cidr name)
  network_answer t ip name (some r) = t.contains r ip

  -- the condition functions `network` and `inNetwork`, for the address and the name among their
  -- arguments where these have the right types; `none` is a panic
  unfoldable pub network_condition :
      (Text → R) → Tests R → Option Text → Option Text → Networks R → Option Bool × Networks R
  unfolding ask
  network_condition loads t (some ip) (some name) nets =
      let (ranger, after) = ask loads name nets in (network_answer t ip name ranger, after)
  network_condition loads t _ _ nets = (none, nets)
