-- ===== src/Fields/Descriptor.antt =====
-- `FieldDescriptor` (include/fluidloom/core/fields/FieldDescriptor.h,
-- src/core/fields/FieldDescriptor.cpp): what a field is, and when a descriptor is valid.
-- The default values are doubles, of which only the number is kept. A pointer is an address, 0 the
-- null pointer.
use Prim.Native.String.{len}
use fluidloom.Prelude.{ℕ, ◌*◌, String, Bool, true, false, ◌&&◌, ◌||◌, not, ◌==◌, ltb, if◌then◌else◌}

pub data FieldType : Type 0 where
  float32 float64 int32 int64 uint8 : FieldType

pub data AveragingRule : Type 0 where
  arithmetic volume_weighted minimum maximum skip : AveragingRule

pub data SolidScheme : Type 0 where
  zeroed bounce_back neumann skipped custom : SolidScheme

pub record GpuState : Type 0 where
  pub version : ℕ
  pub bytes_allocated : ℕ
  pub device_ptr : ℕ
  pub is_dirty : Bool

pub record FieldDescriptor : Type 0 where
  pub id : ℕ
  pub name : String
  pub type : FieldType
  pub num_components : ℕ
  pub halo_depth : ℕ
  pub avg_rule : AveragingRule
  pub solid_scheme : SolidScheme
  pub default_values : ℕ
  pub is_visualization_field : Bool
  pub is_mask : Bool
  pub is_material : Bool
  pub gpu_state : GpuState

abbrev pub type_size : FieldType → ℕ
type_size float32 = 4
type_size float64 = 8
type_size int32 = 4
type_size int64 = 8
type_size uint8 = 1

abbrev pub bytes_per_cell : FieldDescriptor → ℕ
bytes_per_cell d = type_size d.type * d.num_components

abbrev pub gpu_state_valid : GpuState → Bool
gpu_state_valid g =
    if not (g.device_ptr == 0) then not (g.bytes_allocated == 0) && not (g.version == 0) else true

unfoldable pub descriptor_valid : FieldDescriptor → Bool
descriptor_valid d =
    if d.id == 0
    then false
    else if (len d.name == 0) || ltb 64 (len d.name)
    then false
    else if (d.num_components == 0) || ltb 32 d.num_components
    then false
    else if ltb 2 d.halo_depth
    then false
    else if not (d.default_values == d.num_components)
    then false
    else gpu_state_valid d.gpu_state
