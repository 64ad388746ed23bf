-- ===== src/Containers/SegmentTree.antt =====
-- datastructure/segment_tree.h: ParametrizedSegmentTree.
--
-- COMBINE and BASE are the template's parameters. The recursions take fuel, and `none` is fuel that ran
-- out; the constructor and query give the length of the sequence. `initial` is the value of a fresh entry
-- of the tree.
use kahypar.Prelude.{
  ℕ, zero, suc, ◌+◌, ◌-◌, ◌*◌, ◌/◌, Bool, true, false, ◌&&◌, Option, none, some, leb, ◌==◌,
  if◌then◌else◌, ltb,
}
use kahypar.Prelude.Arrays.{Array, update}
use mathlib.Core.Option
pub mod Folds
pub mod Positions
pub mod Build
pub mod Query

module _ (S T : Type 0) (combine : T → T → T → T) (base : ℕ → Array S → T → T) where
  pub record SegmentTree : Type 0 where
    pub size : ℕ
    pub seq : Array S
    pub seg_tree : Array T
    pub param : T

  -- buildSegmentTree: the tree after the call, and the value returned.
  unfoldable pub build_segment_tree :
      (seq : Array S) (param : T) → ℕ → Array T → ℕ → ℕ → ℕ → Option (Array T × T)
  build_segment_tree seq param zero tree pos i j = none
  build_segment_tree seq param (suc fuel) tree pos i j = elim (i == j) [
    | true ↦ some (tree, base i seq param)
    | false ↦
        let m = (i + j) / 2 in
        Option.bind (build_segment_tree seq param fuel tree (2 * pos + 1) i m) (λ left.
          Option.bind (build_segment_tree seq param fuel left.0 (2 * pos + 2) (m + 1) j) (λ right.
            let value = combine left.1 right.1 param in some (update right.0 pos value, value)))
  ]

  unfoldable pub create : (initial : T) → ℕ → Array S → T → Option SegmentTree
  create initial size seq param =
      let fresh : Array T = λ p. initial in
      elim (ltb 0 size) [
        | true ↦
            Option.map
              (λ built. record { size = size; seq = seq; seg_tree = built.0; param = param })
              (build_segment_tree seq param size fresh 0 0 (size - 1))
        | false ↦ some (record { size = size; seq = seq; seg_tree = fresh; param = param })
      ]

  unfoldable pub query_rec : SegmentTree → ℕ → ℕ → ℕ → ℕ → ℕ → ℕ → Option T
  query_rec s zero pos cur_i cur_j qry_i qry_j = none
  query_rec s (suc fuel) pos cur_i cur_j qry_i qry_j =
      let m = (cur_i + cur_j) / 2 in
      elim (leb qry_i cur_i && leb cur_j qry_j) [
        | true ↦ some (if cur_i == cur_j then base cur_i s.seq s.param else s.seg_tree pos)
        | false ↦ elim (leb cur_i qry_j && leb qry_i m) [
          | true ↦ Option.bind (query_rec s fuel (2 * pos + 1) cur_i m qry_i qry_j) (λ m_left.
              elim (leb (m + 1) qry_j && leb qry_i cur_j) [
                | true ↦
                    Option.map (λ m_right. combine m_left m_right s.param)
                      (query_rec s fuel (2 * pos + 2) (m + 1) cur_j qry_i qry_j)
                | false ↦ some m_left
              ])
          | false ↦ query_rec s fuel (2 * pos + 2) (m + 1) cur_j qry_i qry_j
        ]
      ]

  -- _size - 1 wraps for an empty sequence, whose query the source leaves undefined.
  unfoldable pub query : SegmentTree → ℕ → ℕ → Option T
  query s i j = query_rec s s.size 0 0 (s.size - 1) i j
