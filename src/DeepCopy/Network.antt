-- ===== src/DeepCopy/Network.antt =====
-- The deep copy of Network, zz_generated.deepcopy.go, and that it is one.
use cluster_api_provider_nom.Base.{Option}
use cluster_api_provider_nom.DeepCopy.Structs
use cluster_api_provider_nom.DeepCopy.Structs.{Address, Layout}
use cluster_api_provider_nom.DeepCopy.Memory.{Mem, pure, new_copy}
use cluster_api_provider_nom.DeepCopy.Kinds
use cluster_api_provider_nom.DeepCopy.Rules.{Copier}
use cluster_api_provider_nom.DeepCopy.Rules.Elements.{Equal, Copier-plain}
use cluster_api_provider_nom.DeepCopy.Rules.New.{Refers, Copier-new}

module _ {L : Layout} where
  unfoldable pub deep_copy_into : Structs.Network → Mem L Structs.Network
  deep_copy_into original = pure original

  unfoldable pub deep_copy : Option Address → Mem L (Option Address)
  deep_copy original = new_copy Kinds.network deep_copy_into original

  pub Copier-copy : Copier (Refers Kinds.network Equal) deep_copy
  unfolding deep_copy deep_copy_into
  Copier-copy = Copier-new Copier-plain Kinds.network
