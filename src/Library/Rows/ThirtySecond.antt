-- ===== src/Library/Rows/ThirtySecond.antt =====
-- Lines 4656 to 4805 of gazelle/closure_js/closure_library/closure_library.go.
use rules_closure.Prelude.{List, [], ◌∷◌, ◌++◌}
use rules_closure.Library.{Row, goog_rows, row}

abbrev pub thirty_second_rows : List Row
thirty_second_rows =
    goog_rows (
      ("proto:proto", "proto" ∷ [])
      ∷ ("proto:serializer", "proto.Serializer" ∷ [])
      ∷ ("proto2:descriptor", "proto2.Descriptor" ∷ [])
      ∷ ("proto2:fielddescriptor", "proto2.FieldDescriptor" ∷ [])
      ∷ ("proto2:lazydeserializer", "proto2.LazyDeserializer" ∷ [])
      ∷ ("proto2:message", "proto2.Message" ∷ [])
      ∷ ("proto2:descriptor", "proto2.Metadata" ∷ [])
      ∷ ("proto2:objectserializer", "proto2.ObjectSerializer" ∷ [])
      ∷ ("proto2:pbliteserializer", "proto2.PbLiteSerializer" ∷ [])
      ∷ ("proto2:serializer", "proto2.Serializer" ∷ [])
      ∷ ("proto2:textformatserializer", "proto2.TextFormatSerializer" ∷ [])
      ∷ ("proto2:util", "proto2.Util" ∷ [])
      ∷ ("pubsub:pubsub", "pubsub.PubSub" ∷ [])
      ∷ ("pubsub:topicid", "pubsub.TopicId" ∷ [])
      ∷ ("pubsub:typedpubsub", "pubsub.TypedPubSub" ∷ [])
      ∷ ("reflect:reflect", "reflect" ∷ [])
      ∷ ("result:resultutil", "result" ∷ [])
      ∷ ("result:deferredadaptor", "result.DeferredAdaptor" ∷ [])
      ∷ ("result:dependentresult", "result.DependentResult" ∷ [])
      ∷ ("result:result_interface", "result.Result" ∷ [])
      ∷ ("result:simpleresult", "result.SimpleResult" ∷ "result.SimpleResult.StateError" ∷ [])
      ∷ ("soy:soy", "soy" ∷ [])
      ∷ ("soy:renderer", "soy.InjectedDataSupplier" ∷ "soy.Renderer" ∷ [])
      ∷ (
        "soy:data",
        "soy.data.SanitizedContent" ∷ "soy.data.SanitizedContentKind" ∷ "soy.data.SanitizedCss"
            ∷ "soy.data.SanitizedHtml" ∷ "soy.data.SanitizedHtmlAttribute" ∷ "soy.data.SanitizedJs"
            ∷ "soy.data.SanitizedTrustedResourceUri" ∷ "soy.data.SanitizedUri"
            ∷ "soy.data.UnsanitizedText" ∷ [],
      )
      ∷ ("spell:spellcheck", "spell.SpellCheck" ∷ "spell.SpellCheck.WordChangedEvent" ∷ [])
      ∷ ("stats:basicstat", "stats.BasicStat" ∷ [])
      ∷ ("storage:collectablestorage", "storage.CollectableStorage" ∷ [])
      ∷ ("storage:encryptedstorage", "storage.EncryptedStorage" ∷ [])
      ∷ ("storage:errorcode", "storage.ErrorCode" ∷ [])
      ∷ ("storage:expiringstorage", "storage.ExpiringStorage" ∷ [])
      ∷ ("storage:richstorage", "storage.RichStorage" ∷ "storage.RichStorage.Wrapper" ∷ [])
      ∷ ("storage:storage", "storage.Storage" ∷ [])
      ∷ ("storage:collectablestoragetester", "storage.collectableStorageTester" ∷ [])
      ∷ ("storage/mechanism:errorcode", "storage.mechanism.ErrorCode" ∷ [])
      ∷ (
        "storage/mechanism:errorhandlingmechanism",
        "storage.mechanism.ErrorHandlingMechanism" ∷ [],
      )
      ∷ ("storage/mechanism:html5localstorage", "storage.mechanism.HTML5LocalStorage" ∷ [])
      ∷ ("storage/mechanism:html5sessionstorage", "storage.mechanism.HTML5SessionStorage" ∷ [])
      ∷ ("storage/mechanism:html5webstorage", "storage.mechanism.HTML5WebStorage" ∷ [])
      ∷ ("storage/mechanism:ieuserdata", "storage.mechanism.IEUserData" ∷ [])
      ∷ ("storage/mechanism:iterablemechanism", "storage.mechanism.IterableMechanism" ∷ [])
      ∷ ("storage/mechanism:mechanism", "storage.mechanism.Mechanism" ∷ [])
      ∷ ("storage/mechanism:prefixedmechanism", "storage.mechanism.PrefixedMechanism" ∷ [])
      ∷ (
        "storage/mechanism:iterablemechanismtester",
        "storage.mechanism.iterableMechanismTester" ∷ [],
      )
      ∷ (
        "storage/mechanism:mechanismseparationtester",
        "storage.mechanism.mechanismSeparationTester" ∷ [],
      )
      ∷ (
        "storage/mechanism:mechanismsharingtester",
        "storage.mechanism.mechanismSharingTester" ∷ [],
      )
      ∷ (
        "storage/mechanism:mechanismtestdefinition",
        "storage.mechanism.mechanismTestDefinition" ∷ [],
      )
      ∷ ("storage/mechanism:mechanismtester", "storage.mechanism.mechanismTester" ∷ [])
      ∷ ("storage/mechanism:mechanismfactory", "storage.mechanism.mechanismfactory" ∷ [])
      ∷ ("storage:storagetester", "storage.storageTester" ∷ [])
      ∷ ("string:string", "string" ∷ [])
      ∷ ("string:const", "string.Const" ∷ [])
      ∷ ("string:parser", "string.Parser" ∷ [])
      ∷ ("string:stringbuffer", "string.StringBuffer" ∷ [])
      ∷ ("string:stringifier", "string.Stringifier" ∷ [])
      ∷ ("string:typedstring", "string.TypedString" ∷ [])
      ∷ ("string:string", "string.Unicode" ∷ [])
      ∷ ("string:stringformat", "string.format" ∷ [])
      ∷ ("string:internal", "string.internal" ∷ [])
      ∷ ("string:linkify", "string.linkify" ∷ [])
      ∷ ("string:newlines", "string.newlines" ∷ "string.newlines.Line" ∷ [])
      ∷ ("string:path", "string.path" ∷ [])
      ∷ ("structs:structs", "structs" ∷ [])
      ∷ ("structs:avltree", "structs.AvlTree" ∷ [])
      ∷ ("structs:circularbuffer", "structs.CircularBuffer" ∷ [])
      ∷ ("structs:collection", "structs.Collection" ∷ [])
      ∷ ("structs:heap", "structs.Heap" ∷ [])
      ∷ ("structs:inversionmap", "structs.InversionMap" ∷ [])
      ∷ ("structs:linkedmap", "structs.LinkedMap" ∷ [])
      ∷ ("structs:map", "structs.Map" ∷ [])
      ∷ ("structs:node", "structs.Node" ∷ [])
      ∷ ("structs:pool", "structs.Pool" ∷ [])
      ∷ ("structs:prioritypool", "structs.PriorityPool" ∷ [])
      ∷ ("structs:priorityqueue", "structs.PriorityQueue" ∷ [])
      ∷ (
        "structs:quadtree",
        "structs.QuadTree" ∷ "structs.QuadTree.Node" ∷ "structs.QuadTree.Point" ∷ [],
      )
      ∷ ("structs:queue", "structs.Queue" ∷ [])
      ∷ ("structs:set", "structs.Set" ∷ [])
      ∷ ("structs:simplepool", "structs.SimplePool" ∷ [])
      ∷ ("structs:stringset", "structs.StringSet" ∷ [])
      ∷ ("structs:treenode", "structs.TreeNode" ∷ [])
      ∷ ("structs:trie", "structs.Trie" ∷ [])
      ∷ ("style:style", "style" ∷ [])
      ∷ ("style:bidi", "style.bidi" ∷ [])
      ∷ ("style:cursor", "style.cursor" ∷ [])
      ∷ ("style:transform", "style.transform" ∷ [])
      ∷ ("style:transition", "style.transition" ∷ "style.transition.Css3Property" ∷ [])
      ∷ ("style:stylescrollbartester", "styleScrollbarTester" ∷ [])
      ∷ [])
    ++ ((row "goog.test_module" "//closure/library:test_module"
          ∷ row "goog.test_module_dep" "//closure/library:test_module_dep"
          ∷ [])
        ++ (goog_rows (
            ("testing:functionmock", "testing" ∷ [])
            ∷ (
              "testing:asynctestcase",
              "testing.AsyncTestCase" ∷ "testing.AsyncTestCase.ControlBreakingException" ∷ [],
            )
            ∷ (
              "testing:continuationtestcase",
              "testing.ContinuationTestCase" ∷ "testing.ContinuationTestCase.ContinuationTest"
                  ∷ "testing.ContinuationTestCase.Step" ∷ [],
            )
            ∷ ("testing:deferredtestcase", "testing.DeferredTestCase" ∷ [])
            ∷ ("testing:expectedfailures", "testing.ExpectedFailures" ∷ [])
            ∷ ("testing:recordfunction", "testing.FunctionCall" ∷ [])
            ∷ ("testing:functionmock", "testing.FunctionMock" ∷ "testing.GlobalFunctionMock" ∷ [])
            ∷ ("testing:jstdasyncwrapper", "testing.JsTdAsyncWrapper" ∷ [])
            ∷ ("testing:jstdtestcaseadapter", "testing.JsTdTestCaseAdapter" ∷ [])
            ∷ ("testing:jsunitexception", "testing.JsUnitException" ∷ [])
            ∷ ("testing:loosemock", "testing.LooseExpectationCollection" ∷ "testing.LooseMock" ∷ [])
            ∷ ("testing:functionmock", "testing.MethodMock" ∷ [])
            ∷ ("testing:mock", "testing.Mock" ∷ [])
            ∷ (
              "testing:mockclassfactory",
              "testing.MockClassFactory" ∷ "testing.MockClassRecord" ∷ [],
            )
            ∷ ("testing:mockclock", "testing.MockClock" ∷ [])
            ∷ ("testing:mockcontrol", "testing.MockControl" ∷ [])
            ∷ ("testing:mock", "testing.MockExpectation" ∷ [])
            ∷ ("testing:mockinterface", "testing.MockInterface" ∷ [])
            ∷ ("testing:mockrandom", "testing.MockRandom" ∷ [])
            ∷ ("testing:mockrange", "testing.MockRange" ∷ [])
            ∷ ("testing:mockstorage", "testing.MockStorage" ∷ [])
            ∷ ("testing:mockuseragent", "testing.MockUserAgent" ∷ [])
            ∷ (
              "testing:multitestrunner",
              "testing.MultiTestRunner" ∷ "testing.MultiTestRunner.TestFrame" ∷ [],
            )
            ∷ ("testing:objectpropertystring", "testing.ObjectPropertyString" ∷ [])
            ∷ ("testing:performancetable", "testing.PerformanceTable" ∷ [])
            ∷ (
              "testing:performancetimer",
              "testing.PerformanceTimer" ∷ "testing.PerformanceTimer.Task" ∷ [],
            )
            ∷ ("testing:propertyreplacer", "testing.PropertyReplacer" ∷ [])
            ∷ ("testing:pseudorandom", "testing.PseudoRandom" ∷ [])
            ∷ ("testing:shardingtestcase", "testing.ShardingTestCase" ∷ [])
            ∷ ("testing:strictmock", "testing.StrictMock" ∷ [])
            ∷ (
              "testing:testcase",
              "testing.TestCase" ∷ "testing.TestCase.Error" ∷ "testing.TestCase.Order"
                  ∷ "testing.TestCase.Result" ∷ "testing.TestCase.Test" ∷ [],
            )
            ∷ ("testing:testqueue", "testing.TestQueue" ∷ [])
            ∷ ("testing:testrunner", "testing.TestRunner" ∷ [])
            ∷ ("testing:asserts", "testing.asserts" ∷ [])
            ∷ [])))
