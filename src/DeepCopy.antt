-- ===== src/DeepCopy.antt =====
-- api/v1alpha1/deepcopy.go and zz_generated.deepcopy.go: the deep copies of the custom resource, on a
-- heap of slices' arrays and objects.
pub mod Heap
pub mod Objects
pub mod Copier
pub mod Fields
pub mod Correct
pub mod Lists
pub mod Isolated
