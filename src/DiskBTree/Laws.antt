-- ===== src/DiskBTree/Laws.antt =====
-- What the layers of core/src/classical/btree_disk rely on in a list on disk, and why the lists of
-- core/src/common/list/boundary_disk.rs and deep_disk.rs have it.
use clearned_immutable.Prelude.{ℕ, ◌≡◌, Bool, Option, none, some}
use clearned_immutable.Node.{BTreeNode}
use clearned_immutable.PageStore.Api.{MarbleApi, Codec}
use clearned_immutable.PageStore.{Attempt, done, failed, panicked}
use clearned_immutable.PageStore.Views.{IsTotal}
use clearned_immutable.DiskList.{CatalogPage, Store}
use clearned_immutable.DiskList.Nodes.{
  IsNodeRead, IsTransformed, IsNode, shown, get_node-IsNodeRead, transform_node-IsTransformed,
}
use clearned_immutable.DiskList.Boundary
use clearned_immutable.DiskList.Boundary.{DiskNodes}
use clearned_immutable.DiskList.Deep
use clearned_immutable.DiskList.Deep.{DeepDiskList}
use clearned_immutable.DiskBTree.{DiskListOps}
use clearned_immutable.DiskBTree.Layers.{boundary_ops, deep_ops}

pub record DiskListLaws {L N PA : Type 0} (ops : DiskListOps L N PA) : Type 1 where
  pub Good : L → ℕ → Type 0
  pub nodes : L → ℕ → Option N
  pub get_node_law :
      (l : L) (ptr : ℕ) (node : N)
      → Good l ptr
      → nodes l ptr ≡ some node
      → IsNodeRead Good nodes l node (ops.get_node l ptr)
  pub transform_node_law :
      {T : Type 0} (l : L) (ptr : ℕ) (node changed : N) (t : T) (closure : N → Attempt (N × T))
      → Good l ptr
      → nodes l ptr ≡ some node
      → closure node ≡ done (changed, t)
      → IsTransformed Good nodes l ptr changed t (ops.transform_node T l ptr closure)

module _ (api : MarbleApi) {V : Type 0} (PA : Type 0) (codec : Codec api.Bytes (CatalogPage Unit))
    (node_codec : Codec api.Bytes (BTreeNode V)) (size_of : ℕ) (default : BTreeNode V)
    (equal : BTreeNode V → BTreeNode V → Bool) (total : IsTotal api codec node_codec) where
  abbrev Layer : Type 0
  Layer = DiskNodes api PA codec node_codec

  abbrev IsPage : Layer → ℕ → Type 0
  IsPage l ptr = IsNode api codec node_codec l.store ptr

  abbrev page_of : Layer → ℕ → Option (BTreeNode V)
  page_of l i = shown api codec node_codec l.store i

  pub read_in_list :
      (l : Layer) (node : BTreeNode V)
      (r : Attempt (Option (BTreeNode V)) × Store api codec node_codec)
      → IsNodeRead (IsNode api codec node_codec) (shown api codec node_codec) l.store node r
      → IsNodeRead IsPage page_of l node (Boundary.with_store api PA codec node_codec l r)
  read_in_list l node (done r, s) h = h
  read_in_list l node (failed e, s) h = h
  read_in_list l node (panicked e, s) h = h

  pub changed_in_list :
      {T : Type 0} (l : Layer) (ptr : ℕ) (changed : BTreeNode V) (t : T)
      (r : Attempt T × Store api codec node_codec)
      → IsTransformed
          (IsNode api codec node_codec)
          (shown api codec node_codec)
          l.store
          ptr
          changed
          t
          r
      → IsTransformed IsPage page_of l ptr changed t
          (Boundary.with_store api PA codec node_codec l r)
  changed_in_list l ptr changed t (done r, s) h = h
  changed_in_list l ptr changed t (failed e, s) h = h
  changed_in_list l ptr changed t (panicked e, s) h = h

  unfoldable pub boundary_laws :
      DiskListLaws (boundary_ops api PA codec node_codec size_of default equal)
  unfolding Boundary.get_node Boundary.transform_node
  boundary_laws = record {
    Good = IsPage;
    nodes = page_of;
    get_node_law = λ l ptr node good there.
        read_in_list l node _
          (get_node-IsNodeRead api codec node_codec l.store ptr node good there);
    transform_node_law = λ l ptr node changed t closure good there change.
        changed_in_list l ptr changed t _ (
          transform_node-IsTransformed api codec node_codec tt size_of default equal total l.store
            ptr node changed t closure good there change);
  }

module _ (api : MarbleApi) {V PA : Type 0} (codec : Codec api.Bytes (CatalogPage (Option PA)))
    (node_codec : Codec api.Bytes (BTreeNode V)) (size_of : ℕ) (default : BTreeNode V)
    (equal : BTreeNode V → BTreeNode V → Bool) (total : IsTotal api codec node_codec) where
  abbrev DeepLayer : Type 0
  DeepLayer = DeepDiskList api codec node_codec

  abbrev IsDeepPage : DeepLayer → ℕ → Type 0
  IsDeepPage l ptr = IsNode api codec node_codec l.store ptr

  abbrev deep_page_of : DeepLayer → ℕ → Option (BTreeNode V)
  deep_page_of l i = shown api codec node_codec l.store i

  read_in_deep :
      (l : DeepLayer) (node : BTreeNode V)
      (r : Attempt (Option (BTreeNode V)) × Store api codec node_codec)
      → IsNodeRead (IsNode api codec node_codec) (shown api codec node_codec) l.store node r
      → IsNodeRead IsDeepPage deep_page_of l node (Deep.with_store api codec node_codec l r)
  read_in_deep l node (done r, s) h = h
  read_in_deep l node (failed e, s) h = h
  read_in_deep l node (panicked e, s) h = h

  changed_in_deep :
      {T : Type 0} (l : DeepLayer) (ptr : ℕ) (changed : BTreeNode V) (t : T)
      (r : Attempt T × Store api codec node_codec)
      → IsTransformed
          (IsNode api codec node_codec)
          (shown api codec node_codec)
          l.store
          ptr
          changed
          t
          r
      → IsTransformed IsDeepPage deep_page_of l ptr changed t
          (Deep.with_store api codec node_codec l r)
  changed_in_deep l ptr changed t (done r, s) h = h
  changed_in_deep l ptr changed t (failed e, s) h = h
  changed_in_deep l ptr changed t (panicked e, s) h = h

  deep_laws : DiskListLaws (deep_ops api codec node_codec size_of default equal)
  unfolding Deep.get_node Deep.transform_node
  deep_laws = record {
    Good = IsDeepPage;
    nodes = deep_page_of;
    get_node_law = λ l ptr node good there.
        read_in_deep l node _
          (get_node-IsNodeRead api codec node_codec l.store ptr node good there);
    transform_node_law = λ l ptr node changed t closure good there change.
        changed_in_deep l ptr changed t _ (
          transform_node-IsTransformed api codec node_codec none size_of default equal total l.store
            ptr node changed t closure good there change);
  }
