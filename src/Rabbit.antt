-- ===== src/Rabbit.antt =====
-- The search for the handlers of queues among the controllers of the modules (src/rabbit), and the decorator
-- that marks a handler. Instances, prototypes and callbacks are the framework's; a wrapper of an instance is
-- modelled by the instance, a class by its name, and a method's name is a string.
pub mod Found
use core_status.Base.{
  ℕ, String, Bool, true, false, Option, none, some, List, [], ◌∷◌, ◌++◌, map, length, select, ltb,
  ◌===◌, if◌then◌else◌,
}

pub record RabbitQueueOptions : Type 0 where
  pub silent : Option Bool
  pub schema : Option String

pub record RabbitSubscriberConfig : Type 0 where
  pub queue : String
  pub options : Option RabbitQueueOptions

pub record RabbitSubscriberMetadataConfiguration (Callback : Type 0) : Type 0 where
  pub queue : String
  pub options : Option RabbitQueueOptions
  pub target : String
  pub method_name : String
  pub callback : Callback

pub record RabbitSubscriberMetadata (Instance Callback : Type 0) : Type 0 where
  pub queue : String
  pub options : Option RabbitQueueOptions
  pub target : String
  pub method_name : String
  pub callback : Callback
  pub class_instance : Instance

-- `RabbitSubscribe` on the method `property_key` of the class `target`
abbrev pub rabbit_subscribe :
    {Callback : Type 0}
    → RabbitSubscriberConfig
    → String
    → String
    → Callback
    → RabbitSubscriberMetadataConfiguration Callback
rabbit_subscribe config target property_key value = record {
  queue = config.queue;
  options = config.options;
  target = target;
  method_name = property_key;
  callback = value;
}

-- What is called of the framework: the prototype of an instance, the metadata of the method that a prototype has
-- under a name, and the scan of a prototype's methods.
pub record Framework (Instance Prototype Callback : Type 0) : Type 0 where
  pub get_prototype_of : Instance → Prototype
  pub get_metadata : Prototype → String → Option (RabbitSubscriberMetadataConfiguration Callback)
  pub scan_from_prototype :
      Instance
      → Prototype
      → (String → Option (RabbitSubscriberMetadata Instance Callback))
      → List (RabbitSubscriberMetadata Instance Callback)

-- `Map.get`
abbrev pub get : {I : Type 0} → String → List (String × I) → Option I
get key [] = none
get key ((k, i) ∷ rest) = if k === key then some i else get key rest

-- one key of `mapKeys.map`
abbrev push_defined : {I : Type 0} → Option I → List I → List I
push_defined none is = is
push_defined (some i) is = is ++ i ∷ []

-- `mapKeys.map` on the keys that are left, with the wrappers so far
abbrev pub push_keys : {I : Type 0} → List (String × I) → List String → List I → List I
push_keys controllers [] is = is
push_keys controllers (k ∷ ks) is = push_keys controllers ks (push_defined (get k controllers) is)

-- `controllersMap.forEach`
abbrev pub push_maps : {I : Type 0} → List (List (String × I)) → List I → List I
push_maps [] is = is
push_maps (m ∷ ms) is = push_maps ms (push_keys m (map (λ entry. entry.0) m) is)

-- the filter of modules, where a module is the map of its controllers
abbrev pub has_controllers : {I : Type 0} → List (String × I) → Bool
has_controllers controllers = ltb 0 (length controllers)

unfoldable pub find_controllers : {I : Type 0} → List (List (String × I)) → List I
find_controllers modules = push_maps (select has_controllers modules) []

module _ {I P C : Type 0} (framework : Framework I P C) where
  abbrev pub bind_instance :
      I → Option (RabbitSubscriberMetadataConfiguration C) → Option (RabbitSubscriberMetadata I C)
  bind_instance instance_ none = none
  bind_instance instance_ (some handler) = some (record {
    queue = handler.queue;
    options = handler.options;
    target = handler.target;
    method_name = handler.method_name;
    callback = handler.callback;
    class_instance = instance_;
  })

  abbrev pub explore_method_metadata : I → P → String → Option (RabbitSubscriberMetadata I C)
  explore_method_metadata instance_ prototype method_key =
      bind_instance instance_ (framework.get_metadata prototype method_key)

  abbrev pub scan : I → List (RabbitSubscriberMetadata I C)
  scan instance_ =
      let prototype = framework.get_prototype_of instance_ in
      framework.scan_from_prototype instance_ prototype
        (explore_method_metadata instance_ prototype)

  -- `reduce` with `[...prev, ...curr]`
  abbrev pub spread :
      List (List (RabbitSubscriberMetadata I C))
      → List (RabbitSubscriberMetadata I C)
      → List (RabbitSubscriberMetadata I C)
  spread [] prev = prev
  spread (curr ∷ rest) prev = spread rest (prev ++ curr)

  unfoldable pub find_subscribed_handlers : List I → List (RabbitSubscriberMetadata I C)
  find_subscribed_handlers instances = spread (map scan instances) []

  unfoldable pub explore : List (List (String × I)) → List (RabbitSubscriberMetadata I C)
  explore modules = find_subscribed_handlers (find_controllers modules)
