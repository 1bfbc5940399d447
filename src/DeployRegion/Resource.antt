-- ===== src/DeployRegion/Resource.antt =====
-- Amounts of compute resources (pkg/controllers/deployregion/resource.go).
use extended_deployment.Base.{
  str_eq, ◌++◌, ◌+◌, ◌*◌, pos_part, String, suc, ◌/◌, ℤ, pos, negsuc, ltb_ℤ, leb_ℤ, add64, sub64,
  Bool, true, false, if◌then◌else◌, List, [], ◌∷◌, Option, none, some, ◌-◌, ◌^◌,
}

pub record Resource : Type 0 where
  pub milli_cpu : ℤ
  pub memory : ℤ
  pub ephemeral_storage : ℤ
  pub allowed_pod_number : ℤ

pub data ResourceName : Type 0 where
  cpu memory pods ephemeral_storage : ResourceName
  other : String → ResourceName

-- resource.Quantity, by what the code reads of it: MilliValue() and Value().
pub record Quantity : Type 0 where
  pub milli_value : ℤ
  pub value : ℤ

-- corev1.ResourceList, in the order of one iteration.
abbrev pub ResourceList : Type 0
ResourceList = List (ResourceName × Quantity)

abbrev pub empty_resource : Resource
empty_resource = record {
  milli_cpu = pos 0;
  memory = pos 0;
  ephemeral_storage = pos 0;
  allowed_pod_number = pos 0;
}

unfoldable pub add_one : Resource → ResourceName → Quantity → Resource
add_one r cpu q = record r { milli_cpu = add64 r.milli_cpu q.milli_value }
add_one r memory q = record r { memory = add64 r.memory q.value }
add_one r pods q = record r { allowed_pod_number = add64 r.allowed_pod_number q.value }
add_one r ephemeral_storage q = record r { ephemeral_storage = add64 r.ephemeral_storage q.value }
add_one r (other s) q = r

unfoldable pub add : Resource → ResourceList → Resource
unfolding add_one
add r [] = r
add r ((name, q) ∷ rest) = add (add_one r name q) rest

unfoldable pub add_resource : Resource → Resource → Resource
add_resource r a = record {
  milli_cpu = add64 r.milli_cpu a.milli_cpu;
  memory = add64 r.memory a.memory;
  ephemeral_storage = add64 r.ephemeral_storage a.ephemeral_storage;
  allowed_pod_number = add64 r.allowed_pod_number a.allowed_pod_number;
}

unfoldable pub sub_resource : Resource → Resource → Resource
sub_resource r a = record {
  milli_cpu = sub64 r.milli_cpu a.milli_cpu;
  memory = sub64 r.memory a.memory;
  ephemeral_storage = sub64 r.ephemeral_storage a.ephemeral_storage;
  allowed_pod_number = sub64 r.allowed_pod_number a.allowed_pod_number;
}

-- One case of the switch in Sub; `fail` is the resource when the loop returns early.
unfoldable pub sub_one : Resource → ResourceName → Quantity → Option Resource
sub_one r cpu q =
    if ltb_ℤ r.milli_cpu q.milli_value
    then none
    else some (record r { milli_cpu = sub64 r.milli_cpu q.milli_value })
sub_one r memory q =
    if ltb_ℤ r.memory q.value then none else some (record r { memory = sub64 r.memory q.value })
sub_one r pods q =
    if ltb_ℤ r.allowed_pod_number q.value
    then none
    else some (record r { allowed_pod_number = sub64 r.allowed_pod_number q.value })
sub_one r ephemeral_storage q =
    if ltb_ℤ r.ephemeral_storage q.value
    then none
    else some (record r { ephemeral_storage = sub64 r.ephemeral_storage q.value })
sub_one r (other s) q = some r

-- Sub changes its receiver up to the entry that it fails at: the resource, and whether it failed.
unfoldable pub sub : Resource → ResourceList → Resource × Bool
unfolding sub_one
sub r [] = (r, false)
sub r ((name, q) ∷ rest) = elim (sub_one r name q) [ none ↦ (r, true) | some r' ↦ sub r' rest ]

abbrev max64 : ℤ → ℤ → ℤ
max64 a b = if ltb_ℤ a b then b else a

unfoldable pub set_max_one : Resource → ResourceName → Quantity → Resource
set_max_one r cpu q = record r { milli_cpu = max64 r.milli_cpu q.milli_value }
set_max_one r memory q = record r { memory = max64 r.memory q.value }
set_max_one r pods q = record r { allowed_pod_number = max64 r.allowed_pod_number q.value }
set_max_one r ephemeral_storage q = record r {
  ephemeral_storage = max64 r.ephemeral_storage q.value;
}
set_max_one r (other s) q = r

unfoldable pub set_max_resource : Resource → ResourceList → Resource
unfolding set_max_one
set_max_resource r [] = r
set_max_resource r ((name, q) ∷ rest) = set_max_resource (set_max_one r name q) rest

unfoldable pub min_int64 : ℤ → ℤ → ℤ
min_int64 a b = if leb_ℤ a b then a else b

-- Go's division by a positive number, which rounds towards 0.
unfoldable pub quotient : ℤ → ℤ → ℤ
quotient (pos a) (pos (suc d)) = pos (a / suc d)
quotient (negsuc a) (pos (suc d)) =
    if leb_ℤ (pos (suc d)) (pos (suc a)) then negsuc ((suc a) / suc d - 1) else pos 0
quotient a b = pos 0

-- The limit that one entry sets; an entry that is not positive sets none.
unfoldable pub divide_by : ℤ → ℤ → ℤ → ℤ
unfolding min_int64 quotient
divide_by res have need = if ltb_ℤ (pos 0) need then min_int64 res (quotient have need) else res

unfoldable pub divide_one : Resource → ℤ → ResourceName → Quantity → ℤ
unfolding divide_by
divide_one r res cpu q = divide_by res r.milli_cpu q.milli_value
divide_one r res memory q = divide_by res r.memory q.value
divide_one r res ephemeral_storage q = divide_by res r.ephemeral_storage q.value
divide_one r res pods q = res
divide_one r res (other s) q = res

unfoldable pub divide_all : Resource → ℤ → ResourceList → ℤ
unfolding divide_one
divide_all r res [] = res
divide_all r res ((name, q) ∷ rest) = divide_all r (divide_one r res name q) rest

unfoldable pub max_divided : Resource → ResourceList → ℤ
unfolding divide_all
max_divided r rl = min_int64 (divide_all r (pos (2 ^ 63 - 1)) rl) r.allowed_pod_number

unfoldable pub less_equal : Resource → Resource → Bool
less_equal r rr =
    if leb_ℤ r.milli_cpu rr.milli_cpu
    then if leb_ℤ r.memory rr.memory
      then if leb_ℤ r.ephemeral_storage rr.ephemeral_storage
        then leb_ℤ r.allowed_pod_number rr.allowed_pod_number
        else false
      else false
    else false

-- resource.NewMilliQuantity and resource.NewQuantity of a number that is not negative: Value rounds
-- up to the next integer.
abbrev pub new_milli_quantity : ℤ → Quantity
new_milli_quantity m = record { milli_value = m; value = pos ((pos_part m + 999) / 1000) }

abbrev pub new_quantity : ℤ → Quantity
new_quantity v = record { milli_value = pos (pos_part v * 1000); value = v }

abbrev entry_if_positive : ℤ → ResourceName → Quantity → ResourceList → ResourceList
entry_if_positive amount name q rest = if ltb_ℤ (pos 0) amount then (name, q) ∷ rest else rest

unfoldable pub resource_list : Resource → ResourceList
resource_list r = entry_if_positive r.milli_cpu cpu (new_milli_quantity r.milli_cpu) (
    entry_if_positive r.memory memory (new_quantity r.memory) (
      entry_if_positive r.ephemeral_storage ephemeral_storage (new_quantity r.ephemeral_storage)
        (entry_if_positive r.allowed_pod_number pods (new_quantity r.allowed_pod_number) [])))

-- The requests and limits of a container.
pub record Container : Type 0 where
  pub requests : ResourceList
  pub limits : ResourceList

abbrev name_eq : ResourceName → ResourceName → Bool
name_eq cpu cpu = true
name_eq memory memory = true
name_eq pods pods = true
name_eq ephemeral_storage ephemeral_storage = true
name_eq (other s) (other t) = str_eq s t
name_eq a b = false

abbrev has_name : ResourceName → ResourceList → Bool
has_name name [] = false
has_name name ((n, q) ∷ rest) = if name_eq name n then true else has_name name rest

-- A limit counts as a request where there is none of that name.
unfoldable pub with_limits : ResourceList → ResourceList → ResourceList
with_limits requests [] = requests
with_limits requests ((name, q) ∷ limits) =
    with_limits (if has_name name requests then requests else requests ++ (name, q) ∷ []) limits

abbrev default_requests : List Container → List Container
default_requests [] = []
default_requests (c ∷ rest) =
    record c { requests = with_limits c.requests c.limits } ∷ default_requests rest

abbrev add_containers : Resource → List Container → Resource
add_containers r [] = r
add_containers r (c ∷ rest) = add_containers (add r c.requests) rest

abbrev max_containers : Resource → List Container → Resource
max_containers r [] = r
max_containers r (c ∷ rest) = max_containers (set_max_resource r c.requests) rest

pub record PodSpec : Type 0 where
  pub containers : List Container
  pub init_containers : List Container
  -- A nil overhead is empty.
  pub overhead : ResourceList

unfoldable pub add_pod_request : Resource → PodSpec → Resource
unfolding add set_max_resource
add_pod_request r spec =
    add (max_containers (add_containers r spec.containers) spec.init_containers) spec.overhead

unfoldable pub add_pod_template_request : Resource → PodSpec → Resource
unfolding add_pod_request with_limits
add_pod_template_request r spec = add_pod_request r (record spec {
  containers = default_requests spec.containers;
  init_containers = default_requests spec.init_containers;
})

unfoldable pub add_resource_pods : Resource → ℤ → Resource
unfolding add
add_resource_pods r n = add r ((pods, new_quantity n) ∷ [])
